-- ===== src/DataChannel/Client/Reports.antt =====
-- What the client reports where a test fails.
use webrtc_echoes.Base.{
  ◌≡◌, refl, ap, ◌∙◌, Bool, true, false, not, some, List, [], ◌∷◌, ◌++◌, arith, All, negsuc, Bytes,
  eqb,
}
use webrtc_echoes.DataChannel.Client.Promise.{sliced, unsettled, broken, promise_satisfied}
use webrtc_echoes.DataChannel.Client.Verdict.{is_ok, run_settled, is_settled, decides}
use webrtc_echoes.DataChannel.Client.Session.{
  exchange, Message, text, binary, Event, message, Client, on_event, run, new_client, wait_for,
  exit_code, session, gathering_complete, gathering_other, state_other, disconnected, track_open,
  channel_open,
}

-- A message that is not the text that was sent.
abbrev pub is_wrong : Bytes → Message → Bool
is_wrong expected (text str) = not (eqb str expected)
is_wrong expected (binary bytes) = true

-- Events before anything is decided: among them the exchange that comes to its end.
abbrev pub is_quiet : Bytes → Event → Bool
is_quiet path (gathering_complete x) = is_ok (exchange path x)
is_quiet path gathering_other = true
is_quiet path state_other = true
is_quiet path channel_open = true
is_quiet path _ = false

-- One wrong message breaks an unsettled promise with an exception that has lost its text.
wrong_message_slices :
    (m : Message) (c : Client)
    → c.channel_test ≡ true
    → c.promise ≡ unsettled
    → is_wrong c.random_text m ≡ true
    → (on_event (message m) c).promise ≡ broken sliced
unfolding on_event
wrong_message_slices (text str) c t u w = ground arith
wrong_message_slices (binary bytes) c t u w = ground arith

quiet_keeps :
    (e : Event) (c : Client)
    → is_quiet c.path e ≡ true
    → let d = on_event e c in
      (d.path ≡ c.path)
      × (d.channel_test ≡ c.channel_test)
      × (d.random_text ≡ c.random_text)
      × (d.promise ≡ c.promise)
unfolding on_event
quiet_keeps (gathering_complete x) c h = ground arith
quiet_keeps (message m) c h = absurd (cc)
quiet_keeps disconnected c h = absurd (cc)
quiet_keeps track_open c h = absurd (cc)
quiet_keeps gathering_other c h = (refl, refl, refl, refl)
quiet_keeps state_other c h = (refl, refl, refl, refl)
quiet_keeps channel_open c h = ground arith

run_wrong :
    (path : Bytes) (quiet : List Event) (m : Message) (rest : List Event) (c : Client)
    → All (λ e. is_quiet path e ≡ true) quiet
    → c.path ≡ path
    → c.channel_test ≡ true
    → c.promise ≡ unsettled
    → is_wrong c.random_text m ≡ true
    → (run (quiet ++ message m ∷ rest) c).promise ≡ broken sliced
unfolding run
run_wrong path [] m rest c q p t u w =
    let e = wrong_message_slices m c t u w in
    run_settled rest (on_event (message m) c) (ap is_settled e) ∙ e
run_wrong path (e ∷ quiet) m rest c q p t u w =
    let (same_path, test, expected, promise) = quiet_keeps e c (ap (λ q. is_quiet q e) p ∙ q.0) in
    run_wrong path quiet m rest (on_event e c) q.1 (same_path ∙ p) (test ∙ t) (promise ∙ u)
      (ap (λ text. is_wrong text m) expected ∙ w)

-- Where the first message of the data channel test is wrong, the client exits with -1 and reports a
-- bare std::exception: neither the kind of the failure nor the text that came is left, whatever
-- happened before, the exchange included, as long as it decided nothing, and in any way after.
pub session_wrong :
    (random_text path : Bytes) (quiet : List Event) (m : Message) (rest : List Event)
    → All (λ e. is_quiet path e ≡ true) quiet
    → is_wrong random_text m ≡ true
    → session true random_text path (quiet ++ message m ∷ rest) ≡ (some sliced, negsuc 0)
unfolding session exit_code
session_wrong random_text path quiet m rest q w =
    ap (λ p. (wait_for p, exit_code (wait_for p)))
      (run_wrong path quiet m rest (new_client true random_text path) q refl refl refl w)

-- An event that would decide the test of a client that is settled already changes no promise: its
-- callback is left by the exception of a promise set twice.
pub decides_late :
    (e : Event) (c : Client) (verdict : Bool)
    → is_settled c.promise ≡ true
    → decides c.channel_test c.random_text c.path e ≡ some verdict
    → ((on_event e c).promise ≡ c.promise)
      × ((on_event e c).escaped ≡ c.escaped ++ promise_satisfied ∷ [])
unfolding on_event
decides_late (gathering_complete x) c v h d = ground arith
decides_late (message (text str)) c v h d = ground arith
decides_late (message (binary bytes)) c v h d = ground arith
decides_late disconnected c v h d = ground arith
decides_late track_open c v h d = ground arith
decides_late gathering_other c v h d = ground arith
decides_late state_other c v h d = ground arith
decides_late channel_open c v h d = ground arith
