-- ===== src/PeerFactory/Wait/Termination.antt =====
-- Every run of the two threads ends, and ends with the return of the call.
use webrtc_echoes.Base.{◌+◌, ◌≤◌, ◌<◌, ◌≡◌, refl, ◌⊎◌, inl, inr, true, arith, Bool-cases}
use webrtc_echoes.PeerFactory.Wait.{
  is_callers, touches_frame, answering, leaving, wake_unnotified, unlock_answer, unlock_empty,
  Threads, Step, lock, see_ready, start_wait, wake, time_out, return_answer, return_empty,
  set_remote, set_local, enter_observer, set_ready, notify, leave_observer, touch_dead, begin,
  Owner, Caller, Signaller, free, main_holds, signal_holds, locking, testing, waiting, reading,
  timed_out, answered, gave_up, queued, remote_set, local_set, holding, ready_set, notified,
  finished, start,
}
use webrtc_echoes.PeerFactory.Wait.Invariant.{Inv, Step-Inv, has_returned, Reach-Inv}
use webrtc_echoes.PeerFactory.Wait.Rank.{Steps, none_left, more, count, rank}

Step-rank : {s t : Threads} → Step s t → Inv s → rank t < rank s
unfolding rank
Step-rank (lock s h k) v = ground arith
Step-rank (see_ready s h k) v = ground arith
Step-rank (start_wait s h k) v = ground arith
Step-rank (wake s h n k m) v = ground arith
Step-rank (wake_unnotified s h k m) v = ground arith
Step-rank (time_out s h k m) v = ground arith
Step-rank (unlock_answer s h) v = ground arith
Step-rank (return_answer s h) v = ground arith
Step-rank (unlock_empty s h) v = ground arith
Step-rank (return_empty s h) v = ground arith
Step-rank (set_remote s h k) v = ground arith
Step-rank (set_local s h k) v = ground arith
Step-rank (enter_observer s h k m) v = ground arith
Step-rank (set_ready s h k) v = ground arith
Step-rank (notify s h k) v = ground arith
Step-rank (leave_observer s h k) v = ground arith
Step-rank (touch_dead s h k m) v = ground arith

Steps-rank : {s t : Threads} (run : Steps s t) → Inv s → count run + rank t ≤ rank s
Steps-rank none_left v = omega arith
Steps-rank (more st rest) v = omega (arith, Step-rank st v, Steps-rank rest (Step-Inv st v))

Steps-Inv : {s t : Threads} → Steps s t → Inv s → Inv t
Steps-Inv none_left v = v
Steps-Inv (more st rest) v = Steps-Inv rest (Step-Inv st v)

abbrev Continues : Threads → Type 0
Continues s = (u : Threads) × Step s u

-- The call has returned, and the signalling thread is done or has come upon the dead frame.
abbrev pub IsOver : Threads → Type 0
IsOver s = (has_returned s.caller ≡ true) × ((s.signaller ≡ finished) ⊎ (s.faulted ≡ true))

-- A signalling thread that holds the lock goes on.
holder-Continues :
    (s : Threads) (g : Signaller)
    → Inv s
    → s.signaller ≡ g
    → s.mutex ≡ signal_holds
    → s.frame_live ≡ true
    → Continues s
holder-Continues s holding v e m l = (_, set_ready s e l)
holder-Continues s ready_set v e m l = (_, notify s e l)
holder-Continues s notified v e m l = (_, leave_observer s e l)
holder-Continues s queued v e m l = absurd (ground (arith, v))
holder-Continues s remote_set v e m l = absurd (ground (arith, v))
holder-Continues s local_set v e m l = absurd (ground (arith, v))
holder-Continues s finished v e m l = absurd (ground (arith, v))

-- The calling thread has returned, or waits for a lock that the signalling thread holds, or can go on
-- by itself.
abbrev pub IsFree : Threads → Type 0
IsFree s =
    (has_returned s.caller ≡ true)
    ⊎ ((s.mutex ≡ signal_holds) ⊎ ((u : Threads) × (st : Step s u) × (is_callers st ≡ true)))

locking-IsFree : (s : Threads) (o : Owner) → Inv s → s.caller ≡ locking → s.mutex ≡ o → IsFree s
locking-IsFree s free v e m = inr (inr (_, lock s e m, refl))
locking-IsFree s signal_holds v e m = inr (inl m)
locking-IsFree s main_holds v e m = absurd (ground (arith, v))

-- Where isReady is not set, it is the time that is up.
waiting-IsFree : (s : Threads) (o : Owner) → Inv s → s.caller ≡ waiting → s.mutex ≡ o → IsFree s
waiting-IsFree s free v e m = elim (Bool-cases s.is_ready) [
  | inl r ↦ inr (inr (_, wake_unnotified s e m r, refl))
  | inr r ↦ inr (inr (_, time_out s e m r, refl))
]
waiting-IsFree s signal_holds v e m = inr (inl m)
waiting-IsFree s main_holds v e m = absurd (ground (arith, v))

is_free : (s : Threads) (c : Caller) → Inv s → s.caller ≡ c → IsFree s
is_free s locking v e = locking-IsFree s s.mutex v e refl
is_free s testing v e = elim (Bool-cases s.is_ready) [
  | inl r ↦ inr (inr (_, see_ready s e r, refl))
  | inr r ↦ inr (inr (_, start_wait s e r, refl))
]
is_free s waiting v e = waiting-IsFree s s.mutex v e refl
is_free s reading v e = inr (inr (_, unlock_answer s e, refl))
is_free s answering v e = inr (inr (_, return_answer s e, refl))
is_free s timed_out v e = inr (inr (_, unlock_empty s e, refl))
is_free s leaving v e = inr (inr (_, return_empty s e, refl))
is_free s answered v e = inl (ground arith)
is_free s gave_up v e = inl (ground arith)

returned-IsOver :
    (s : Threads) (c : Caller)
    → Inv s
    → s.caller ≡ c
    → has_returned c ≡ true
    → IsOver s ⊎ Continues s
returned-IsOver s answered v e h = inl (ground arith, inl (v.answered_finished e))
returned-IsOver s gave_up v e h = elim (Bool-cases (touches_frame s.signaller)) [
  | inl t ↦ elim (Bool-cases s.faulted) [
    | inl f ↦ inl (ground arith, inr f)
    | inr f ↦ inr (_, touch_dead s t (ground (arith, v)) f)
  ]
  | inr t ↦ inl (ground arith, inl (ground arith))
]
returned-IsOver s _ v e h = absurd (cc)

no_deadlock : (s : Threads) → Inv s → IsFree s → IsOver s ⊎ Continues s
no_deadlock s v (inl h) = returned-IsOver s s.caller v refl h
no_deadlock s v (inr (inl m)) = elim (Bool-cases s.frame_live) [
  | inl l ↦ inr (holder-Continues s s.signaller v refl m l)
  | inr l ↦ returned-IsOver s s.caller v refl (ground (arith, v))
]
no_deadlock s v (inr (inr (u, st, c))) = inr (u, st)

-- A call ends however its two threads are interleaved. A run has eleven steps at most. In a state that
-- a run reaches, the call has returned and the signalling thread is done or has come upon the dead
-- frame, or one of the threads can go on. And the calling thread depends on the other for nothing but
-- the lock: it has returned, or waits while the signalling thread holds the lock, or can go on itself,
-- whether or not the library ever calls the observer.
pub call_ends :
    {t : Threads} (run : Steps begin t)
    → (count run ≤ 11) × (IsOver t ⊎ ((u : Threads) × Step t u)) × IsFree t
unfolding rank
call_ends {t} run =
    let v = Steps-Inv run (Reach-Inv start) in
    let able = is_free t t.caller v refl in
    (omega (arith, Steps-rank run (Reach-Inv start)), no_deadlock t v able, able)
