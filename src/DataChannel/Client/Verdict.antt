-- ===== src/DataChannel/Client/Verdict.antt =====
-- The exit code of the client against a description of what its tests demand.
use webrtc_echoes.Base.{
  ◌≡◌, refl, sym, ap, ◌∙◌, Bool, true, false, Option, none, some, List, [], ◌∷◌, arith,
  if◌then◌else◌, pos, negsuc, Bytes, eqb,
}
use webrtc_echoes.DataChannel.Client.Promise.{Promise, unsettled, fulfilled, broken}
use webrtc_echoes.DataChannel.Client.Session.{
  Outcome, ok, throws, exchange, text, binary, Event, gathering_complete, gathering_other,
  state_other, disconnected, track_open, channel_open, message, Client, on_event, run, new_client,
  wait_for, exit_code, session,
}

abbrev pub is_ok {ℓ} : {A : Type ℓ} → Outcome A → Bool
is_ok (ok a) = true
is_ok (throws e) = false

-- What one event decides: the test has passed, has failed, or goes on.
abbrev pub decides : Bool → Bytes → Bytes → Event → Option Bool
decides channel_test expected path (gathering_complete x) =
    if is_ok (exchange path x) then none else some false
decides channel_test expected path disconnected = some false
decides false expected path track_open = some true
decides true expected path (message (text str)) = some (eqb str expected)
decides true expected path (message (binary bytes)) = some false
decides _ _ _ _ = none

-- The first decision, where none is failure by the time that is up.
abbrev pub passes : Bool → Bytes → Bytes → List Event → Bool
passes channel_test expected path [] = false
passes channel_test expected path (e ∷ es) =
    let rest = passes channel_test expected path es in
    elim (decides channel_test expected path e) [ none ↦ rest | some verdict ↦ verdict ]

abbrev is_fulfilled : Promise → Bool
is_fulfilled fulfilled = true
is_fulfilled _ = false

abbrev pub is_settled : Promise → Bool
is_settled unsettled = false
is_settled _ = true

-- What a client is started with.
pub record SameStart (c d : Client) : Type 0 where
  pub same_test : d.channel_test ≡ c.channel_test
  pub same_text : d.random_text ≡ c.random_text
  pub same_path : d.path ≡ c.path

pub on_event-SameStart : (e : Event) (c : Client) → SameStart c (on_event e c)
unfolding on_event
on_event-SameStart (gathering_complete x) c = ground arith
on_event-SameStart (message m) c = ground arith
on_event-SameStart gathering_other c = ground arith
on_event-SameStart state_other c = ground arith
on_event-SameStart disconnected c = ground arith
on_event-SameStart track_open c = ground arith
on_event-SameStart channel_open c = ground arith

-- A settled promise stays as it is.
pub on_event_settled :
    (e : Event) (c : Client) → is_settled c.promise ≡ true → (on_event e c).promise ≡ c.promise
unfolding on_event
on_event_settled (gathering_complete x) c h = ground arith
on_event_settled (message m) c h = ground arith
on_event_settled gathering_other c h = ground arith
on_event_settled state_other c h = ground arith
on_event_settled disconnected c h = ground arith
on_event_settled track_open c h = ground arith
on_event_settled channel_open c h = ground arith

abbrev verdict_of : Promise → Option Bool
verdict_of unsettled = none
verdict_of fulfilled = some true
verdict_of (broken e) = some false

on_event-decides :
    (e : Event) (c : Client)
    → c.promise ≡ unsettled
    → verdict_of (on_event e c).promise ≡ decides c.channel_test c.random_text c.path e
unfolding on_event
on_event-decides (gathering_complete x) c h = ground arith
on_event-decides (message m) c h = ground arith
on_event-decides gathering_other c h = ground arith
on_event-decides state_other c h = ground arith
on_event-decides disconnected c h = ground arith
on_event-decides track_open c h = ground arith
on_event-decides channel_open c h = ground arith

pub run_settled :
    (es : List Event) (c : Client) → is_settled c.promise ≡ true → (run es c).promise ≡ c.promise
unfolding run
run_settled [] c h = refl
run_settled (e ∷ es) c h =
    let kept = on_event_settled e c h in
    run_settled es (on_event e c) (ap is_settled kept ∙ h) ∙ kept

abbrev decided : Bool → Option Bool → Bool
decided later none = later
decided later (some verdict) = verdict

-- After one event the rest of the run is decided by what the event left in the promise.
run_decides_from :
    (p : Promise) (channel_test : Bool) (expected path : Bytes) (es : List Event) (d : Client)
    (verdict : Option Bool)
    → d.promise ≡ p
    → verdict_of d.promise ≡ verdict
    → (d.promise ≡ unsettled
        → is_fulfilled (run es d).promise ≡ passes channel_test expected path es)
    → is_fulfilled (run es d).promise ≡ decided (passes channel_test expected path es) verdict
run_decides_from unsettled channel_test expected path es d verdict e v later =
    later e ∙ ap (decided (passes channel_test expected path es)) (sym (ap verdict_of e) ∙ v)
run_decides_from fulfilled channel_test expected path es d verdict e v later =
    ap is_fulfilled (run_settled es d (ap is_settled e) ∙ e)
    ∙ ap (decided (passes channel_test expected path es)) (sym (ap verdict_of e) ∙ v)
run_decides_from (broken x) channel_test expected path es d verdict e v later =
    ap is_fulfilled (run_settled es d (ap is_settled e) ∙ e)
    ∙ ap (decided (passes channel_test expected path es)) (sym (ap verdict_of e) ∙ v)

run_decides :
    (channel_test : Bool) (expected path : Bytes) (es : List Event) (c : Client)
    → c.promise ≡ unsettled
    → c.channel_test ≡ channel_test
    → c.random_text ≡ expected
    → c.path ≡ path
    → is_fulfilled (run es c).promise ≡ passes channel_test expected path es
unfolding run
run_decides channel_test expected path [] c h t x p = ap is_fulfilled h
run_decides channel_test expected path (e ∷ es) c h t x p =
    let d = on_event e c in
    let same = on_event-SameStart e c in
    run_decides_from d.promise channel_test expected path es d
      (decides channel_test expected path e) refl (on_event-decides e c h ∙ cc)
      λ u.
        run_decides channel_test expected path es d u (same.same_test ∙ t) (same.same_text ∙ x)
          (same.same_path ∙ p)

wait_for_exit :
    (p : Promise) → exit_code (wait_for p) ≡ (if is_fulfilled p then pos 0 else negsuc 0)
unfolding exit_code
wait_for_exit unsettled = refl
wait_for_exit fulfilled = refl
wait_for_exit (broken e) = refl

-- The client exits with 0 if the first event that decides its test passes it, and with -1 if that
-- event fails it or no event decides it in time: later events change nothing.
pub session-passes :
    (channel_test : Bool) (random_text path : Bytes) (events : List Event)
    → (session channel_test random_text path events).1
      ≡ (if passes channel_test random_text path events then pos 0 else negsuc 0)
unfolding session
session-passes channel_test random_text path events =
    let c : Client = new_client channel_test random_text path in
    wait_for_exit (run events c).promise
    ∙ ap (λ b. if b then pos 0 else negsuc 0)
        (run_decides channel_test random_text path events c refl refl refl refl)
