-- ===== src/Capture/Device/History.antt =====
-- A history of calls of the interface: one entry point for all methods, and the run of a list of
-- them, which an abort ends.
use webrtc_echoes.Base.{
  ◌≡◌, sym, ap, subst, ◌⊎◌, inl, inr, Bool, Option, none, some, some-injective, List, [], ◌∷◌, ◌++◌,
  Memᴰ, Option-cases,
}
use webrtc_echoes.Capture.State.{Capture}
use webrtc_echoes.Capture.Device.{
  SetupCall, StreamCall, LevelCall, ChannelCall, BuiltInCall, Outcome, returns, aborts, setup,
  stream, level, channel, built_in,
}

pub data Call : Type 0 where
  setup_call : SetupCall → Call
  stream_call : StreamCall → Call
  level_call : LevelCall → Call
  channel_call : ChannelCall → Call
  built_in_call : BuiltInCall → Call

unfoldable pub call : Bool → Call → Capture → Outcome
call dcheck (setup_call c) s = setup dcheck c s
call dcheck (stream_call c) s = stream dcheck c s
call dcheck (level_call c) s = level c s
call dcheck (channel_call c) s = channel c s
call dcheck (built_in_call c) s = built_in c s

abbrev pub after : Outcome → Option Capture
after (returns r s) = some s
after aborts = none

-- The state after a history, or none where the process has been aborted.
unfoldable pub run : Bool → List Call → Capture → Option Capture
run dcheck [] s = some s
run dcheck (c ∷ cs) s = elim (after (call dcheck c s)) [ none ↦ none | some t ↦ run dcheck cs t ]

none≢some : {t : Capture} → none ≡ some t → ⊥
none≢some h = cc

-- A history that does not abort goes through the state after its first call.
pub run-cons :
    (dcheck : Bool) (c : Call) (cs : List Call) (s : Capture) {t : Capture}
    → run dcheck (c ∷ cs) s ≡ some t
    → (u : Capture) × (after (call dcheck c s) ≡ some u) × (run dcheck cs u ≡ some t)
unfolding run
run-cons dcheck c cs s h = elim (Option-cases (after (call dcheck c s))) [
  | inl e ↦ absurd (none≢some (rw (e, run) at h))
  | inr (u, e) ↦ (u, e, rw (e, run) at h)
]

-- A history with the call `start` in it, and with `Q` true when it began or the call `init` before
-- that `start`.
abbrev pub StartsAfter : Type 0 → Call → Call → List Call → Type 0
StartsAfter q init start cs =
    (before : List Call) × (rest : List Call) × (cs ≡ before ++ start ∷ rest)
    × (q ⊎ Memᴰ init before)

-- Where only `start` makes `P` true, and only after `Q`, and only `init` makes `Q` true, a history
-- that ends in `P` began in `P` or holds the two calls in that order.
module _ (P Q : Capture → Type 0) (init start : Call) (dcheck : Bool)
    (P_from : (c : Call) (s t : Capture)
      → after (call dcheck c s) ≡ some t
      → P t
      → P s ⊎ ((c ≡ start) × Q s))
    (Q_from : (c : Call) (s t : Capture)
      → after (call dcheck c s) ≡ some t
      → Q t
      → Q s ⊎ (c ≡ init)) where
  earlier :
      (c : Call) (s u : Capture) (cs : List Call)
      → after (call dcheck c s) ≡ some u
      → StartsAfter (Q u) init start cs
      → StartsAfter (Q s) init start (c ∷ cs)
  earlier c s u cs first (before, rest, e, inl q) = elim (Q_from c s u first q) [
    | inl q' ↦ (c ∷ before, rest, ap (◌∷◌ c) e, inl q')
    | inr i ↦ (c ∷ before, rest, ap (◌∷◌ c) e, inr (Memᴰ.head (sym i)))
  ]
  earlier c s u cs first (before, rest, e, inr m) =
      (c ∷ before, rest, ap (◌∷◌ c) e, inr (Memᴰ.tail m))

  pub run-StartsAfter :
      (cs : List Call) (s t : Capture)
      → run dcheck cs s ≡ some t
      → P t
      → P s ⊎ StartsAfter (Q s) init start cs
  unfolding run
  run-StartsAfter [] s t h p = inl (subst P (sym (some-injective s t h)) p)
  run-StartsAfter (c ∷ cs) s t h p =
      let (u, first, rest) = run-cons dcheck c cs s h in
      elim (run-StartsAfter cs u t rest p) [
        | inr later ↦ inr (earlier c s u cs first later)
        | inl q ↦ elim (P_from c s u first q) [
          | inl r ↦ inl r
          | inr r ↦ inr ([], cs, ap (λ d. d ∷ cs) r.0, inl r.1)
        ]
      ]

-- A history with the call `start` in it, and the call `init` before that.
abbrev pub Ordered : Call → Call → List Call → Type 0
Ordered init start cs =
    (before : List Call) × (rest : List Call) × (cs ≡ before ++ start ∷ rest) × Memᴰ init before

-- With neither `P` nor `Q` at first, both calls were made, in order.
pub ordered :
    {p q : Type 0} (init start : Call) (cs : List Call)
    → ¬ p
    → ¬ q
    → p ⊎ StartsAfter q init start cs
    → Ordered init start cs
ordered init start cs np nq (inl x) = absurd (np x)
ordered init start cs np nq (inr (before, rest, e, inl x)) = absurd (nq x)
ordered init start cs np nq (inr (before, rest, e, inr m)) = (before, rest, e, m)
