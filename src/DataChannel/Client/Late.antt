-- ===== src/DataChannel/Client/Late.antt =====
-- The exceptions that leave the client's callbacks (libdatachannel/client.cpp, lines 105 to 181): those
-- of a promise that is set again.
use webrtc_echoes.Base.{
  ℕ, zero, suc, ◌≡◌, refl, sym, ap, ◌∙◌, Bool, true, Option, none, some, List, [], ◌∷◌, ◌++◌,
  append_assoc, append-nil, arith, replicate, Bytes,
}
use webrtc_echoes.DataChannel.Client.Promise.{unsettled, promise_satisfied, Error}
use webrtc_echoes.DataChannel.Client.Verdict.{
  decides, is_settled, on_event_settled, on_event-SameStart,
}
use webrtc_echoes.DataChannel.Client.Reports.{decides_late}
use webrtc_echoes.DataChannel.Client.Session.{
  text, binary, Event, message, gathering_complete, gathering_other, state_other, disconnected,
  track_open, channel_open, Client, on_event, run, new_client,
}

abbrev counted : Option Bool → ℕ → ℕ
counted none n = n
counted (some verdict) n = suc n

-- The events that decide the test.
abbrev pub decisions : Bool → Bytes → Bytes → List Event → ℕ
decisions channel_test expected path [] = 0
decisions channel_test expected path (e ∷ es) =
    counted (decides channel_test expected path e) (decisions channel_test expected path es)

-- All of a number but one, if there is one.
abbrev pub others : ℕ → ℕ
others zero = 0
others (suc n) = n

abbrev decisions_of : Client → List Event → ℕ
decisions_of c es = decisions c.channel_test c.random_text c.path es

-- An event that decides nothing lets nothing escape, and leaves the promise.
undecided_keeps :
    (e : Event) (c : Client)
    → decides c.channel_test c.random_text c.path e ≡ none
    → ((on_event e c).promise ≡ c.promise) × ((on_event e c).escaped ≡ c.escaped)
unfolding on_event
undecided_keeps (gathering_complete x) c d = ground arith
undecided_keeps (message (text str)) c d = ground arith
undecided_keeps (message (binary bytes)) c d = ground arith
undecided_keeps disconnected c d = ground arith
undecided_keeps track_open c d = ground arith
undecided_keeps gathering_other c d = ground arith
undecided_keeps state_other c d = ground arith
undecided_keeps channel_open c d = ground arith

-- The event that decides first settles the promise, and lets nothing escape.
decided_settles :
    (e : Event) (c : Client) (verdict : Bool)
    → c.promise ≡ unsettled
    → decides c.channel_test c.random_text c.path e ≡ some verdict
    → (is_settled (on_event e c).promise ≡ true) × ((on_event e c).escaped ≡ c.escaped)
unfolding on_event
decided_settles (gathering_complete x) c v u d = ground arith
decided_settles (message (text str)) c v u d = ground arith
decided_settles (message (binary bytes)) c v u d = ground arith
decided_settles disconnected c v u d = ground arith
decided_settles track_open c v u d = ground arith
decided_settles gathering_other c v u d = ground arith
decided_settles state_other c v u d = ground arith
decided_settles channel_open c v u d = ground arith

-- A client keeps what its decisions depend on.
decisions_kept :
    (e : Event) (es : List Event) (c : Client) → decisions_of (on_event e c) es ≡ decisions_of c es
decisions_kept e es c =
    let same = on_event-SameStart e c in rw (same.same_test, same.same_text, same.same_path) refl

abbrev again : ℕ → List Error
again n = replicate n promise_satisfied

-- From a settled promise on every decision escapes.
late_after :
    (e : Event) (es : List Event) (c : Client) (verdict : Option Bool)
    → is_settled c.promise ≡ true
    → decides c.channel_test c.random_text c.path e ≡ verdict
    → (on_event e c).escaped ++ again (decisions_of c es)
      ≡ c.escaped ++ again (counted verdict (decisions_of c es))
late_after e es c none h d =
    ap (λ errors. errors ++ again (decisions_of c es)) (undecided_keeps e c d).1
late_after e es c (some verdict) h d =
    ap (λ errors. errors ++ again (decisions_of c es)) (decides_late e c verdict h d).1
    ∙ append_assoc c.escaped (promise_satisfied ∷ []) (again (decisions_of c es))

run_late :
    (es : List Event) (c : Client)
    → is_settled c.promise ≡ true
    → (run es c).escaped ≡ c.escaped ++ again (decisions_of c es)
unfolding run
run_late [] c h = sym (append-nil c.escaped)
run_late (e ∷ es) c h =
    let d = on_event e c in
    run_late es d (ap is_settled (on_event_settled e c h) ∙ h)
    ∙ ap (λ k. d.escaped ++ again k) (decisions_kept e es c)
    ∙ late_after e es c _ h refl

-- The first event of a run from an unsettled promise.
late_from :
    (e : Event) (es : List Event) (c : Client) (verdict : Option Bool)
    → c.promise ≡ unsettled
    → decides c.channel_test c.random_text c.path e ≡ verdict
    → ((on_event e c).promise ≡ unsettled
        → (run es (on_event e c)).escaped
          ≡ (on_event e c).escaped ++ again (others (decisions_of (on_event e c) es)))
    → (run es (on_event e c)).escaped
      ≡ c.escaped ++ again (others (counted verdict (decisions_of c es)))
late_from e es c none u d later =
    let (kept, quiet) = undecided_keeps e c d in
    later (kept ∙ u)
    ∙ ap (λ k. (on_event e c).escaped ++ again (others k)) (decisions_kept e es c)
    ∙ ap (λ errors. errors ++ again (others (decisions_of c es))) quiet
late_from e es c (some verdict) u d later =
    let (settled, quiet) = decided_settles e c verdict u d in
    run_late es (on_event e c) settled
    ∙ ap (λ k. (on_event e c).escaped ++ again k) (decisions_kept e es c)
    ∙ ap (λ errors. errors ++ again (decisions_of c es)) quiet

run_unsettled :
    (es : List Event) (c : Client)
    → c.promise ≡ unsettled
    → (run es c).escaped ≡ c.escaped ++ again (others (decisions_of c es))
unfolding run
run_unsettled [] c u = sym (append-nil c.escaped)
run_unsettled (e ∷ es) c u = late_from e es c _ u refl (run_unsettled es (on_event e c))

-- Of the events that would decide the client's test the first lets nothing escape, and each other
-- leaves its callback by the exception of a promise set twice, whatever comes between them.
pub run-escaped :
    (channel_test : Bool) (random_text path : Bytes) (es : List Event)
    → (run es (new_client channel_test random_text path)).escaped
      ≡ replicate (others (decisions channel_test random_text path es)) promise_satisfied
run-escaped channel_test random_text path es =
    run_unsettled es (new_client channel_test random_text path) refl
