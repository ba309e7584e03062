-- ===== src/PeerFactory/Wait/Outcomes.antt =====
-- How the wait of PcFactory::CreatePeerConnection can end.
use webrtc_echoes.Base.{
  ℕ, zero, suc, ◌<◌, ◌≡◌, refl, ◌⊎◌, inl, inr, Bool, true, false, arith, Bool-cases,
}
use webrtc_echoes.PeerFactory.Wait.{
  is_prompt, is_waiting, touches_frame, answering, leaving, wake_unnotified, unlock_answer,
  unlock_empty, free, main_holds, signal_holds, Caller, Signaller, Threads, Step, Reach, locking,
  testing, waiting, reading, timed_out, answered, gave_up, queued, remote_set, local_set, holding,
  ready_set, notified, finished, lock, see_ready, start_wait, wake, time_out, return_answer,
  return_empty, set_remote, set_local, enter_observer, set_ready, notify, leave_observer,
  touch_dead,
}
use webrtc_echoes.PeerFactory.Wait.Rank.{all_prompt, Steps, none_left, more, rank}
use webrtc_echoes.PeerFactory.Wait.Invariant.{Inv, Step-Inv, Reach-Inv}

-- A call that has returned after seeing isReady leaves nothing behind: the signalling thread has
-- done with the frame, and there was no fault.
pub answered_safe :
    {s : Threads}
    → Reach s
    → s.caller ≡ answered
    → (s.signaller ≡ finished) × (s.is_ready ≡ true) × (s.faulted ≡ false)
answered_safe r h = ground (arith, Reach-Inv r)

-- While the call has not given up there is no fault.
pub fault-gave_up : {s : Threads} → Reach s → s.faulted ≡ true → s.caller ≡ gave_up
fault-gave_up r h = ground (arith, Reach-Inv r)

-- The one step after giving up.
gave_up_only :
    {s t : Threads}
    → Step s t
    → Inv s
    → s.caller ≡ gave_up
    → (t.faulted ≡ true) × (touches_frame s.signaller ≡ true)
gave_up_only (lock s h k) v g = ground arith
gave_up_only (see_ready s h k) v g = ground arith
gave_up_only (start_wait s h k) v g = ground arith
gave_up_only (wake s h n k m) v g = ground arith
gave_up_only (wake_unnotified s h k m) v g = ground arith
gave_up_only (time_out s h k m) v g = ground arith
gave_up_only (unlock_answer s h) v g = ground arith
gave_up_only (return_answer s h) v g = ground arith
gave_up_only (unlock_empty s h) v g = ground arith
gave_up_only (return_empty s h) v g = ground arith
gave_up_only (set_remote s h k) v g = ground arith
gave_up_only (set_local s h k) v g = ground arith
gave_up_only (enter_observer s h k m) v g = ground arith
gave_up_only (set_ready s h k) v g = ground arith
gave_up_only (notify s h k) v g = ground arith
gave_up_only (leave_observer s h k) v g = ground arith
gave_up_only (touch_dead s h k m) v g = ground arith

-- Once a call has given up, and until a fault, either the signalling thread has done with its frame,
-- and no step is possible; or a step that touches the dead frame is possible, and no other step is.
pub gave_up_dangles :
    {s : Threads}
    → Reach s
    → s.caller ≡ gave_up
    → s.faulted ≡ false
    → ((s.signaller ≡ finished) × ((t : Threads) → ¬ Step s t))
      ⊎ (Step s (record s { faulted = true }) × ((t : Threads) → Step s t → t.faulted ≡ true))
gave_up_dangles {s} r h f = elim (Bool-cases (touches_frame s.signaller)) [
  | inl e ↦
      inr (
        touch_dead s e (ground (arith, Reach-Inv r)) f,
        λ t st. (gave_up_only st (Reach-Inv r) h).0,
      )
  | inr e ↦ inl (ground arith, λ t st. absurd (ground (arith, gave_up_only st (Reach-Inv r) h)))
]

abbrev pub out_of_time : Caller → Bool
out_of_time timed_out = true
out_of_time leaving = true
out_of_time gave_up = true
out_of_time _ = false

-- A prompt step on the way to the answer.
abbrev Progress : Threads → Type 0
Progress s =
    (t : Threads) × (st : Step s t) × (is_prompt st ≡ true)
    × (rank t < rank s)
    × (out_of_time t.caller ≡ false)

-- With the signalling thread done, the caller takes the lock.
caller-Progress :
    (s : Threads)
    → Inv s
    → s.signaller ≡ finished
    → (s.caller ≡ locking) ⊎ (s.caller ≡ waiting)
    → Progress s
unfolding rank
caller-Progress s v e (inl c) = (
  record s { caller = testing; mutex = main_holds },
  lock s c (ground (arith, v)),
  refl,
  ground arith,
  ground arith,
)
caller-Progress s v e (inr c) = (
  record s { caller = reading; mutex = main_holds },
  wake s c (v.woken_when_notified c (ground arith)) (ground (arith, v)) (ground (arith, v)),
  refl,
  ground arith,
  ground arith,
)

-- While the caller does not hold the lock, the signalling thread goes on; then the caller does.
signaller-Progress :
    (s : Threads) (g : Signaller)
    → Inv s
    → s.signaller ≡ g
    → (s.caller ≡ locking) ⊎ (s.caller ≡ waiting)
    → Progress s
unfolding rank
signaller-Progress s queued v e c = (
  record s { signaller = remote_set },
  set_remote s e (ground (arith, v)),
  refl,
  ground arith,
  ground arith,
)
signaller-Progress s remote_set v e c = (
  record s { signaller = local_set },
  set_local s e (ground (arith, v)),
  refl,
  ground arith,
  ground arith,
)
signaller-Progress s local_set v e c = (
  record s { signaller = holding; mutex = signal_holds },
  enter_observer s e (ground (arith, v)) (ground (arith, v)),
  refl,
  ground arith,
  ground arith,
)
signaller-Progress s holding v e c = (
  record s { signaller = ready_set; is_ready = true },
  set_ready s e (ground (arith, v)),
  refl,
  ground arith,
  ground arith,
)
signaller-Progress s ready_set v e c = (
  record s { signaller = notified; woken = is_waiting s.caller },
  notify s e (ground (arith, v)),
  refl,
  ground arith,
  ground arith,
)
signaller-Progress s notified v e c = (
  record s { signaller = finished; mutex = free },
  leave_observer s e (ground (arith, v)),
  refl,
  ground arith,
  ground arith,
)
signaller-Progress s finished v e c = caller-Progress s v e c

progress :
    (s : Threads) (c : Caller)
    → Inv s
    → s.caller ≡ c
    → out_of_time c ≡ false
    → (s.caller ≡ answered) ⊎ Progress s
unfolding rank
progress s locking v e o = inr (signaller-Progress s s.signaller v refl (inl e))
progress s testing v e o = elim (Bool-cases s.is_ready) [
  | inl r ↦ inr (record s { caller = reading }, see_ready s e r, refl, ground arith, ground arith)
  | inr r ↦ inr (
    record s { caller = waiting; mutex = free; woken = false },
    start_wait s e r,
    refl,
    ground arith,
    ground arith,
  )
]
progress s waiting v e o = inr (signaller-Progress s s.signaller v refl (inr e))
progress s reading v e o = inr (
  record s { caller = answering; mutex = free },
  unlock_answer s e,
  refl,
  ground arith,
  ground arith,
)
progress s answering v e o = inr (
  record s { caller = answered; frame_live = false },
  return_answer s e,
  refl,
  ground arith,
  ground arith,
)
progress s timed_out v e o = absurd (cc)
progress s leaving v e o = absurd (cc)
progress s answered v e o = inl e
progress s gave_up v e o = absurd (cc)

-- A prompt run to the answer.
abbrev pub Answers : Threads → Type 0
Answers s = (t : Threads) × (run : Steps s t) × (all_prompt run ≡ true) × (t.caller ≡ answered)

reaches_answer :
    (n : ℕ) (s : Threads) → rank s < n → Inv s → out_of_time s.caller ≡ false → Answers s
reaches_answer zero s b v o = absurd (omega arith)
reaches_answer (suc n) s b v o = elim (progress s s.caller v refl o) [
  | inl e ↦ (s, none_left, refl, e)
  | inr (t, st, p, less, o') ↦
      let (u, rest, q, e) = reaches_answer n t (omega arith) (Step-Inv st v) o' in
      (u, more st rest, ground arith, e)
]

-- No wake-up is lost: from every state that the threads reach before the time is up, however they
-- were interleaved, they can go on to the return of an answer with no step that waits for the end of
-- the three seconds and none that wakes up without a notification.
pub Reach-answered : {s : Threads} → Reach s → out_of_time s.caller ≡ false → Answers s
Reach-answered {s} r o = reaches_answer (suc (rank s)) s (omega arith) (Reach-Inv r) o
