-- ===== src/Gstreamer/Pipeline/Release.antt =====
-- What the GStreamer server releases of a pipeline while its connection changes state.
use webrtc_echoes.Base.{
  ℕ, ◌+◌, ◌≡◌, true, not, ◌&&◌, some, List, [], ◌∷◌, arith, if◌then◌else◌, any,
}
use webrtc_echoes.Gstreamer.Pipeline.{
  Launch, Element, create_webrtc, ConnectionState, is_failed, on_connection_state_notify,
}

-- One notification after another.
unfoldable pub notify_all : List ConnectionState → Element → Element
notify_all [] e = e
notify_all (s ∷ states) e = notify_all states (on_connection_state_notify s e)

abbrev pub count_failures : List ConnectionState → ℕ
count_failures [] = 0
count_failures (s ∷ states) = (if is_failed s then 1 else 0) + count_failures states

notify_all_lem :
    (states : List ConnectionState) (e : Element)
    → let t = notify_all states e in
      (t.pipeline_unrefs ≡ e.pipeline_unrefs)
      × (t.playing ≡ (e.playing && not (any is_failed states)))
      × (t.webrtcbin_unrefs ≡ e.webrtcbin_unrefs + count_failures states)
unfolding notify_all on_connection_state_notify
notify_all_lem [] e = ground arith
notify_all_lem (s ∷ states) e =
    let (pipeline, playing, webrtcbin) = notify_all_lem states (on_connection_state_notify s e) in
    ground (arith, pipeline, playing, webrtcbin)

create_webrtc_new :
    (l : Launch) (e : Element)
    → create_webrtc l ≡ some e
    → (e.pipeline_unrefs ≡ 0) × (e.playing ≡ true) × (e.webrtcbin_unrefs ≡ 0)
unfolding create_webrtc
create_webrtc_new l e made = ground arith

-- However the connection of a new element changes its state, the one reference to the webrtcbin
-- element is given back once for each failure, so twice for two, the element plays until the first
-- failure, and the reference to the pipeline is never given back.
pub notify_all-create_webrtc :
    (l : Launch) (e : Element) (states : List ConnectionState)
    → create_webrtc l ≡ some e
    → let t = notify_all states e in
      (t.pipeline_unrefs ≡ 0)
      × (t.playing ≡ not (any is_failed states))
      × (t.webrtcbin_unrefs ≡ count_failures states)
notify_all-create_webrtc l e states made =
    let (pipeline, playing, webrtcbin) = create_webrtc_new l e made in
    let (p, q, r) = notify_all_lem states e in ground (arith, pipeline, playing, webrtcbin, p, q, r)
