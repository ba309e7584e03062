-- ===== src/DataChannel/Server/Lifetime.antt =====
-- The promise of a handler that has returned.
use webrtc_echoes.Base.{
  ℕ, suc, ◌+◌, ◌-◌, ◌≡◌, refl, sym, ◌∙◌, ◌≢◌, inl, inr, true, false, ◌||◌, Option, none, some, List,
  [], ◌∷◌, arith, ltb, Bool-cases, Bytes,
}
use webrtc_echoes.DataChannel.Server.{
  Library, Event, handler_runs, gathering_complete, gathering_other, state_other, disconnected,
  channel_message, track_message, Connection, on_event, run, Handling, responded, refused, waiting,
  by_promise, get, Promise, unsettled, failed, fulfilled, answer_of, new_connection, returned,
  with_description, post_offer,
}
use webrtc_echoes.DataChannel.Server.Responses.{answer_of-ne-unsettled}

-- The completed gatherings among the events.
abbrev pub completions : List Event → ℕ
completions [] = 0
completions (gathering_complete local ∷ es) = suc (completions es)
completions (_ ∷ es) = completions es

-- What comes after the next run of the handler, and after the return of a handler that waits: it
-- returns in its first run after a completed gathering.
abbrev pub after_run : List Event → List Event
after_run [] = []
after_run (handler_runs ∷ es) = es
after_run (_ ∷ es) = after_run es

abbrev pub after_return : List Event → List Event
after_return [] = []
after_return (gathering_complete local ∷ es) = after_run es
after_return (_ ∷ es) = after_return es

-- A connection whose handler has returned.
run_returned :
    (lib : Library) (es : List Event) (c : Connection)
    → c.promise_live ≡ false
    → ((run lib es c).faulted ≡ (c.faulted || ltb 0 (completions es)))
      × ((run lib es c).promise_live ≡ false)
      × ((run lib es c).escaped ≡ c.escaped)
unfolding run on_event
run_returned lib [] c h = ground arith
run_returned lib (gathering_complete local ∷ es) c h =
    ground (arith, run_returned lib es (record c { faulted = true }))
run_returned lib (handler_runs ∷ es) c h =
    ground (arith, run_returned lib es (on_event lib handler_runs c))
run_returned lib (gathering_other ∷ es) c h =
    ground (arith, run_returned lib es (on_event lib gathering_other c))
run_returned lib (state_other ∷ es) c h =
    ground (arith, run_returned lib es (on_event lib state_other c))
run_returned lib (disconnected ∷ es) c h =
    ground (arith, run_returned lib es (on_event lib disconnected c))
run_returned lib (channel_message channel m ∷ es) c h =
    ground (arith, run_returned lib es (on_event lib (channel_message channel m) c))
run_returned lib (track_message track m ∷ es) c h =
    ground (arith, run_returned lib es (on_event lib (track_message track m) c))

-- The fate of the connection that a request made, with `settled` completions before the events `es`,
-- of which `es_after` come after the return of the handler: a fault for a completion after it, and an
-- exception that escapes for each one but the first before it.
abbrev pub HasFate : ℕ → List Event → List Event → Handling → Type 0
HasFate settled es es_after (responded r d) =
    (d.faulted ≡ ltb 0 (completions es_after))
    × (d.promise_live ≡ false)
    × (suc (d.escaped + completions es_after) ≡ settled + completions es)
HasFate settled es es_after (refused r) = Unit {0}
HasFate settled es es_after (waiting d) =
    (d.faulted ≡ false) × (d.promise_live ≡ true) × (d.escaped ≡ settled + completions es - 1)

abbrev pub HasLifetime : List Event → Handling → Type 0
HasLifetime es h = HasFate 0 es (after_return es) h

abbrev IsFresh : Connection → Type 0
IsFresh c =
    (c.promise ≡ unsettled) × (c.promise_live ≡ true) × (c.faulted ≡ false) × (c.escaped ≡ 0)

-- A live connection whose promise is settled.
abbrev IsSettled : ℕ → Connection → Type 0
IsSettled settled c =
    (c.promise ≢ unsettled)
    × (c.promise_live ≡ true)
    × (c.faulted ≡ false)
    × (suc c.escaped ≡ settled)

still_waiting :
    (lib : Library) (es : List Event) (d : Connection) (rest : Handling) (p : Promise)
    → p ≡ unsettled
    → HasLifetime es rest
    → HasLifetime es (by_promise lib es d rest p)
still_waiting lib es d rest unsettled e h = h
still_waiting lib es d rest failed e h = absurd (cc)
still_waiting lib es d rest (fulfilled body) e h = absurd (cc)

responds :
    (lib : Library) (settled : ℕ) (es : List Event) (d : Connection) (rest : Handling) (p : Promise)
    → p ≢ unsettled
    → d.faulted ≡ false
    → suc d.escaped ≡ settled
    → HasFate settled (handler_runs ∷ es) es (by_promise lib es d rest p)
responds lib settled es d rest unsettled n f e = absurd (n refl)
responds lib settled es d rest failed n f e =
    let (faults, live, escapes) = run_returned lib es (returned d) refl in
    (ground (arith, faults), live, omega (arith, escapes, e))
responds lib settled es d rest (fulfilled body) n f e =
    let (faults, live, escapes) = run_returned lib es (returned d) refl in
    (ground (arith, faults), live, omega (arith, escapes, e))

gathered-IsSettled :
    (lib : Library) (local : Option (Bytes × Bytes)) (c : Connection)
    → IsFresh c
    → IsSettled 1 (on_event lib (gathering_complete local) c)
unfolding on_event
gathered-IsSettled lib local c h =
    let e : (on_event lib (gathering_complete local) c).promise ≡ answer_of lib local =
      ground arith in
    (λ u. answer_of-ne-unsettled lib local (sym e ∙ u), ground arith, ground arith, ground arith)

gathered_again-IsSettled :
    (lib : Library) (local : Option (Bytes × Bytes)) (settled : ℕ) (c : Connection)
    → IsSettled settled c
    → IsSettled (suc settled) (on_event lib (gathering_complete local) c)
unfolding on_event
gathered_again-IsSettled lib local settled c h =
    let e : (on_event lib (gathering_complete local) c).promise ≡ c.promise = ground arith in
    (λ u. h.0 (sym e ∙ u), ground arith, ground arith, ground arith)

-- More completions before the events that are left.
HasFate-suc :
    (settled : ℕ) (local : Option (Bytes × Bytes)) (es es_after : List Event) (h : Handling)
    → HasFate (suc settled) es es_after h
    → HasFate settled (gathering_complete local ∷ es) es_after h
HasFate-suc settled local es es_after (responded r d) k = (k.0, k.1, omega (arith, k.2))
HasFate-suc settled local es es_after (refused r) k = tt
HasFate-suc settled local es es_after (waiting d) k = (k.0, k.1, omega (arith, k.2))

get-HasFate :
    (lib : Library) (settled : ℕ) (es : List Event) (c : Connection)
    → IsSettled settled c
    → HasFate settled es (after_run es) (get lib es c)
unfolding get on_event
get-HasFate lib settled [] c h = (h.2, h.1, omega (arith, h.3))
get-HasFate lib settled (handler_runs ∷ es) c h =
    responds lib settled es c (get lib es c) c.promise h.0 h.2 h.3
get-HasFate lib settled (gathering_complete local ∷ es) c h =
    HasFate-suc settled local es (after_run es) _ (
      get-HasFate lib (suc settled) es (on_event lib (gathering_complete local) c)
        (gathered_again-IsSettled lib local settled c h))
get-HasFate lib settled (gathering_other ∷ es) c h =
    get-HasFate lib settled es (on_event lib gathering_other c) h
get-HasFate lib settled (state_other ∷ es) c h =
    get-HasFate lib settled es (on_event lib state_other c) h
get-HasFate lib settled (disconnected ∷ es) c h =
    get-HasFate lib settled es (on_event lib disconnected c) h
get-HasFate lib settled (channel_message channel m ∷ es) c h =
    get-HasFate lib settled es (on_event lib (channel_message channel m) c) h
get-HasFate lib settled (track_message track m ∷ es) c h =
    get-HasFate lib settled es (on_event lib (track_message track m) c) h

get-HasLifetime :
    (lib : Library) (es : List Event) (c : Connection) → IsFresh c → HasLifetime es (get lib es c)
unfolding get on_event
get-HasLifetime lib [] c h = (h.2, h.1, h.3)
get-HasLifetime lib (handler_runs ∷ es) c h =
    still_waiting lib es c (get lib es c) c.promise h.0 (get-HasLifetime lib es c h)
get-HasLifetime lib (gathering_complete local ∷ es) c h = HasFate-suc 0 local es (after_run es) _ (
    get-HasFate lib 1 es (on_event lib (gathering_complete local) c)
      (gathered-IsSettled lib local c h))
get-HasLifetime lib (gathering_other ∷ es) c h =
    get-HasLifetime lib es (on_event lib gathering_other c) h
get-HasLifetime lib (state_other ∷ es) c h = get-HasLifetime lib es (on_event lib state_other c) h
get-HasLifetime lib (disconnected ∷ es) c h = get-HasLifetime lib es (on_event lib disconnected c) h
get-HasLifetime lib (channel_message channel m ∷ es) c h =
    get-HasLifetime lib es (on_event lib (channel_message channel m) c) h
get-HasLifetime lib (track_message track m ∷ es) c h =
    get-HasLifetime lib es (on_event lib (track_message track m) c) h

-- The handler returns in its first run after a completed gathering. From then on its connection uses
-- the ended promise exactly if a gathering completes again; each completion before that but the first
-- leaves its callback by an exception; and the promise of a handler that waits has not ended.
pub post_offer-HasLifetime :
    (lib : Library) (body : Bytes) (es : List Event) → HasLifetime es (post_offer lib body es)
unfolding post_offer
post_offer-HasLifetime lib body es = described (lib.members body)
  where
    described : (remote : Option (Bytes × Bytes)) → HasLifetime es (with_description lib es remote)
    described none = tt
    described (some remote) = elim (Bool-cases (lib.set_remote remote)) [
      | inl e ↦ rw e (get-HasLifetime lib es new_connection (refl, refl, refl, refl))
      | inr e ↦ rw e tt
    ]
