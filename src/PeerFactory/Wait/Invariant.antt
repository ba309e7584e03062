-- ===== src/PeerFactory/Wait/Invariant.antt =====
-- What holds in every state that the two threads reach.
use webrtc_echoes.Base.{◌≡◌, Bool, true, false, not, arith}
use webrtc_echoes.PeerFactory.Wait.{
  answering, wake_unnotified, unlock_answer, unlock_empty, waiting, Owner, main_holds, signal_holds,
  Caller, Signaller, Threads, Step, Reach, start, next, reading, timed_out, answered, gave_up,
  testing, holding, lock, see_ready, start_wait, wake, time_out, return_answer, return_empty,
  set_remote, set_local, enter_observer, set_ready, notify, leave_observer, touch_dead, ready_set,
  notified, finished, waiting, answering,
}

abbrev is_main : Owner → Bool
is_main main_holds = true
is_main _ = false

abbrev is_signal : Owner → Bool
is_signal signal_holds = true
is_signal _ = false

abbrev caller_inside : Caller → Bool
caller_inside testing = true
caller_inside reading = true
caller_inside timed_out = true
caller_inside _ = false

abbrev pub has_returned : Caller → Bool
has_returned answered = true
has_returned gave_up = true
has_returned _ = false

abbrev signaller_inside : Signaller → Bool
signaller_inside holding = true
signaller_inside ready_set = true
signaller_inside notified = true
signaller_inside _ = false

abbrev has_notified : Signaller → Bool
has_notified notified = true
has_notified finished = true
has_notified _ = false

abbrev has_set : Signaller → Bool
has_set ready_set = true
has_set notified = true
has_set finished = true
has_set _ = false

pub record Inv (s : Threads) : Type 0 where
  pub caller_owns : is_main s.mutex ≡ caller_inside s.caller
  pub signaller_owns : is_signal s.mutex ≡ signaller_inside s.signaller
  pub ready_when_set : s.is_ready ≡ has_set s.signaller
  pub reading_ready : s.caller ≡ reading → s.is_ready ≡ true
  pub timed_out_unready : s.caller ≡ timed_out → s.is_ready ≡ false
  pub frame_until_return : s.frame_live ≡ not (has_returned s.caller)
  pub woken_when_notified : s.caller ≡ waiting → has_notified s.signaller ≡ true → s.woken ≡ true
  pub answering_finished : s.caller ≡ answering → s.signaller ≡ finished
  pub answered_finished : s.caller ≡ answered → s.signaller ≡ finished
  pub fault_after_giving_up : s.faulted ≡ true → s.caller ≡ gave_up

pub Step-Inv : {s t : Threads} → Step s t → Inv s → Inv t
Step-Inv (lock s h k) v = ground arith
Step-Inv (see_ready s h k) v = ground arith
Step-Inv (start_wait s h k) v = ground arith
Step-Inv (wake s h n k m) v = ground arith
Step-Inv (wake_unnotified s h k m) v = ground arith
Step-Inv (time_out s h k m) v = ground arith
Step-Inv (unlock_answer s h) v = ground arith
Step-Inv (return_answer s h) v = ground arith
Step-Inv (unlock_empty s h) v = ground arith
Step-Inv (return_empty s h) v = ground arith
Step-Inv (set_remote s h k) v = ground arith
Step-Inv (set_local s h k) v = ground arith
Step-Inv (enter_observer s h k m) v = ground arith
Step-Inv (set_ready s h k) v = ground arith
Step-Inv (notify s h k) v = ground arith
Step-Inv (leave_observer s h k) v = ground arith
Step-Inv (touch_dead s h k m) v = ground arith

pub Reach-Inv : {s : Threads} → Reach s → Inv s
Reach-Inv start = ground arith
Reach-Inv (next r st) = Step-Inv st (Reach-Inv r)
