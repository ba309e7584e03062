-- ===== src/Interop/Command.antt =====
-- The client's main function (libdatachannel/client.cpp) in its peer connection test, against each of
-- the three servers.
use webrtc_echoes.Base.{
  ℕ, ◌^◌, ◌<◌, ◌≡◌, refl, ap, ◌∙◌, Bool, true, false, ◌&&◌, Option, none, some, List, [], ◌∷◌, ◌++◌,
  if◌then◌else◌, length, ℤ, pos, negsuc, Bytes, codes,
}
use webrtc_echoes.PeerFactory.Factory.{Factory}
use webrtc_echoes.PeerFactory.Create
use webrtc_echoes.HttpServer.Handler.{Allocator, Handled}
use webrtc_echoes.Gstreamer.Handler as GstHandler
use webrtc_echoes.DataChannel.Url.{find_last_of, split_url-append}
use webrtc_echoes.DataChannel.Args.{start, start_from, begins}
use webrtc_echoes.DataChannel.Args.Parsing.{
  Setting, command, IsPositional, AreInts, last_test, last_url, lead_or, start_lem,
}
use webrtc_echoes.DataChannel.Client.Session.{
  Outcome, throws, exchange, Exchange, Event, gathering_complete,
}
use webrtc_echoes.DataChannel.Client.Verdict.{is_ok, passes, decides}
use webrtc_echoes.DataChannel.Client.Program.{main, exit_code_of, test_text}
use webrtc_echoes.DataChannel.Client.Program.Exit.{exit_of, main-exit_of}
use webrtc_echoes.DataChannel.Post.{Transport, IsHttp, offer_path}
use webrtc_echoes.DataChannel.Interop.{comes_through, decided_if}
use webrtc_echoes.DataChannel.Interop.Among.{NoneLate, posting_among, posting_among-joined}
use webrtc_echoes.DataChannel.Server
use webrtc_echoes.DataChannel.Server.Program.{Happening}
use webrtc_echoes.DataChannel.Server.Program.Alone.{own}
use webrtc_echoes.DataChannel.Server.Program.Position.{arrivals}
use webrtc_echoes.DataChannel.Handshake
use webrtc_echoes.DataChannel.Handshake.{
  first_local, exchange-joined, reply_of, joined, met, IsReadable,
}
use webrtc_echoes.DataChannel.Client.Promise.{Error, bad_status}
use webrtc_echoes.Interop.Libwebrtc
use webrtc_echoes.Interop.Libwebrtc.Offers.{exchange-libwebrtc}
use webrtc_echoes.Interop.Gst
use webrtc_echoes.Interop.Gst.Offers.{exchange-gstreamer}

-- The exit code of a client whose test passes, or does not.
abbrev pub code_if : Bool → Option ℤ
code_if b = some (if b then pos 0 else negsuc 0)

if_and : (b c : Bool) → (if b then c else false) ≡ b && c
if_and true c = refl
if_and false c = refl

is_ok_if :
    (b : Bool) (o : Outcome (Bytes × Bytes)) (e : Error)
    → is_ok (if b then o else throws e) ≡ b && is_ok o
is_ok_if true o e = refl
is_ok_if false o e = refl

module _ (lead : Option Bytes) (chosen : List Setting) (address : Bytes) where
  -- A command line that settles on the peer connection test at the offer path of an address.
  pub record Connects : Type 0 where
    pub is_positional : IsPositional lead
    pub are_ints : AreInts chosen
    pub test : last_test (pos 0) chosen ≡ pos 0
    pub url : last_url (lead_or lead) chosen ≡ address ++ offer_path

  start_connection : Connects → start (command lead chosen) ≡ begins false address offer_path
  unfolding start_from find_last_of
  start_connection c =
      start_lem lead chosen c.is_positional c.are_ints
      ∙ rw (c.test, c.url, split_url-append address (codes "offer") refl) refl

  -- The track opens before anything else decides the test.
  abbrev pub opens : List Event → Bool
  opens later = passes false [] offer_path later

  -- Without a channel the text that is expected makes no difference.
  passes_any :
      (expected : Bytes) (later : List Event) → passes false expected offer_path later ≡ opens later
  passes_any expected [] = refl
  passes_any expected (e ∷ later) =
      ap (λ b. elim (decides false expected offer_path e) [ none ↦ b | some verdict ↦ verdict ])
        (passes_any expected later)

  passes_connected :
      (expected : Bytes) (y : Exchange) (later : List Event)
      → passes false expected offer_path (gathering_complete y ∷ later)
        ≡ is_ok (exchange offer_path y) && opens later
  passes_connected expected y later =
      decided_if (is_ok (exchange offer_path y)) (passes false expected offer_path later)
      ∙ ap (λ b. if is_ok (exchange offer_path y) then b else false) (passes_any expected later)
      ∙ if_and (is_ok (exchange offer_path y)) (opens later)

  -- The test is passed exactly if the exchange succeeds and then the track opens.
  main-exchange :
      (draw : ℕ → ℕ) (y : Exchange) (later : List Event)
      → Connects
      → exit_code_of (main draw (command lead chosen) (gathering_complete y ∷ later))
        ≡ code_if (is_ok (exchange offer_path y) && opens later)
  main-exchange draw y later c =
      main-exit_of draw (command lead chosen) (gathering_complete y ∷ later)
      ∙ ap (exit_of draw (gathering_complete y ∷ later)) (start_connection c)
      ∙ ap code_if (passes_connected (test_text draw false) y later)

  -- Over HTTP, where each end reads what the other writes and the offer is below 2 ^ 31 bytes: a
  -- client whose command line settles on the peer connection test at the offer path exits with 0
  -- exactly if the libwebrtc server has memory and a factory, makes the connection with its track, has
  -- read and set the offer in time, and has printed a local description that the client takes, and the
  -- client's track then opens before it is disconnected or another exchange fails; and with -1
  -- otherwise.
  pub main-libwebrtc :
      {Json : Type 0} (http : Transport Handled) (memory : Allocator) (lib : Create.Library Json)
      (x : Exchange) (offer : Bytes × Bytes) (f : Factory) (draw : ℕ → ℕ) (later : List Event)
      → IsHttp Libwebrtc.reply_of http
      → Libwebrtc.IsReadable lib x
      → Connects
      → x.local ≡ some offer
      → length (x.dump offer.0 offer.1) < 2 ^ 31
      → exit_code_of (
          main draw
            (command lead chosen)
            (gathering_complete (Libwebrtc.joined http memory lib f x) ∷ later))
        ≡ code_if (is_ok (Libwebrtc.met memory lib x f.has_factory offer) && opens later)
  main-libwebrtc http memory lib x offer f draw later v r c e short =
      main-exchange draw (Libwebrtc.joined http memory lib f x) later c
      ∙ ap (λ o. code_if (is_ok o && opens later))
          (exchange-libwebrtc http memory lib x v r offer f e short)

  -- Over HTTP, where each end reads what the other writes, unless the promise is replied without an
  -- answer and the handler's variable, never set, holds a wild pointer, which is undefined: a client
  -- whose command line settles on the peer connection test at the offer path exits with 0 exactly if
  -- the GStreamer server has memory, its pipeline plays, the SDP is read, and the promise on which its
  -- handler waits is replied with an answer that the client takes, and the client's track then opens
  -- before it is disconnected or another exchange fails; and with -1 otherwise.
  pub main-gstreamer :
      {Json : Type 0} (http : Transport GstHandler.Handled) (lib : GstHandler.Library Json)
      (x : Exchange) (offer : Bytes × Bytes) (draw : ℕ → ℕ) (later : List Event)
      → IsHttp Gst.reply_of http
      → Gst.IsReadable lib x
      → Gst.reads_wild lib ≡ false
      → Connects
      → x.local ≡ some offer
      → exit_code_of
          (main draw (command lead chosen) (gathering_complete (Gst.joined http lib x) ∷ later))
        ≡ code_if (is_ok (Gst.met lib x offer) && opens later)
  main-gstreamer http lib x offer draw later v r tame c e =
      main-exchange draw (Gst.joined http lib x) later c
      ∙ ap (λ o. code_if (is_ok o && opens later)) (exchange-gstreamer http lib x v r tame offer e)

  -- Over HTTP, where each end reads what the other writes, however many other requests come to the
  -- libdatachannel server before and after this client's, and however what happens to them is
  -- interleaved, if no gathering of any of them completes after its handler has returned: a client
  -- whose command line settles on the peer connection test at the offer path exits with 0 exactly if
  -- the server could set the client's description, completed a gathering for this client's own request
  -- that its handler saw, and has a description that the client could set, and the client's track then
  -- opens before it is disconnected or another exchange fails; and with -1 otherwise.
  pub main-libdatachannel :
      (http : Transport (Option Server.Response)) (lib : Server.Library) (x : Exchange)
      (offer : Bytes × Bytes) (before after : List Happening) (draw : ℕ → ℕ) (later : List Event)
      → IsHttp Handshake.reply_of http
      → Handshake.IsReadable lib x
      → NoneLate before lib after
      → Connects
      → x.local ≡ some offer
      → exit_code_of (
          main draw
            (command lead chosen)
            (gathering_complete (posting_among http before lib after x) ∷ later))
        ≡ code_if (comes_through lib x offer (own (arrivals before) after) && opens later)
  main-libdatachannel http lib x offer before after draw later v r n c e =
      let es = own (arrivals before) after in
      main-exchange draw (posting_among http before lib after x) later c
      ∙ ap (λ y. code_if (is_ok (exchange offer_path y) && opens later))
          (posting_among-joined http before lib after x n)
      ∙ ap (λ o. code_if (is_ok o && opens later)) (exchange-joined http lib x v r es offer e)
      ∙ ap (λ b. code_if (b && opens later))
          (is_ok_if (lib.set_remote offer) (Handshake.met x (first_local es)) bad_status)
