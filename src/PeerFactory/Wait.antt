-- ===== src/PeerFactory/Wait.antt =====
-- The two threads of PcFactory::CreatePeerConnection from the call of PostTask on
-- (libwebrtc/PcFactory.cpp, lines 156 to 208, and CreateSdpObserver in PcObserver.h, lines 59 to 93),
-- as steps that interleave. The mutex, the condition variable, isReady, remoteOffer and pc are locals
-- of the calling thread, which the task and the observer hold by reference.
pub mod Invariant
pub mod Rank
pub mod Outcomes
pub mod Termination
use webrtc_echoes.Base.{◌≡◌, Bool, true, false}

pub data Owner : Type 0 where
  free main_holds signal_holds : Owner

-- The calling thread: about to lock, testing isReady, inside wait_for, past the wait with isReady
-- seen, past it without, past the unlocking of `lck` in either way, and returned in either way. The
-- unlocking is the first thing that happens to the locals on a return; the end of isReady, cv and mtx
-- is the next.
pub data Caller : Type 0 where
  locking testing waiting reading timed_out answering leaving answered gave_up : Caller

-- The signalling thread: the task queued, the remote description set, the local description asked
-- for, then in the observer with the lock, isReady set, the others notified, and finished.
pub data Signaller : Type 0 where
  queued remote_set local_set holding ready_set notified finished : Signaller

-- `woken` says whether the calling thread, while it waits, has been notified.
pub record Threads : Type 0 where
  pub mutex : Owner
  pub is_ready : Bool
  pub woken : Bool
  pub frame_live : Bool
  pub caller : Caller
  pub signaller : Signaller
  pub faulted : Bool

abbrev pub begin : Threads
begin = record {
  mutex = free;
  is_ready = false;
  woken = false;
  frame_live = true;
  caller = locking;
  signaller = queued;
  faulted = false;
}

-- The signalling thread still has to touch the frame: all it does is with locals of the caller.
abbrev pub touches_frame : Signaller → Bool
touches_frame finished = false
touches_frame _ = true

-- notify_all reaches the thread that waits, if it does.
abbrev pub is_waiting : Caller → Bool
is_waiting waiting = true
is_waiting _ = false

pub data Step : Threads → Threads → Type 0 where
  lock :
      (s : Threads)
      → s.caller ≡ locking
      → s.mutex ≡ free
      → Step s (record s { caller = testing; mutex = main_holds })
  see_ready :
      (s : Threads)
      → s.caller ≡ testing
      → s.is_ready ≡ true
      → Step s (record s { caller = reading })
  start_wait :
      (s : Threads)
      → s.caller ≡ testing
      → s.is_ready ≡ false
      → Step s (record s { caller = waiting; mutex = free; woken = false })
  -- wait_for wakes for a notification, takes the lock and tests isReady; it goes on waiting where the
  -- test fails, which changes nothing.
  wake :
      (s : Threads)
      → s.caller ≡ waiting
      → s.woken ≡ true
      → s.mutex ≡ free
      → s.is_ready ≡ true
      → Step s (record s { caller = reading; mutex = main_holds })
  -- It may wake without one, for nothing or because the three seconds are up, and find isReady set.
  wake_unnotified :
      (s : Threads)
      → s.caller ≡ waiting
      → s.mutex ≡ free
      → s.is_ready ≡ true
      → Step s (record s { caller = reading; mutex = main_holds })
  -- After three seconds it takes the lock and tests isReady a last time.
  time_out :
      (s : Threads)
      → s.caller ≡ waiting
      → s.mutex ≡ free
      → s.is_ready ≡ false
      → Step s (record s { caller = timed_out; mutex = main_holds })
  -- A return frees the lock and then ends the frame.
  unlock_answer :
      (s : Threads) → s.caller ≡ reading → Step s (record s { caller = answering; mutex = free })
  return_answer :
      (s : Threads)
      → s.caller ≡ answering
      → Step s (record s { caller = answered; frame_live = false })
  unlock_empty :
      (s : Threads) → s.caller ≡ timed_out → Step s (record s { caller = leaving; mutex = free })
  return_empty :
      (s : Threads)
      → s.caller ≡ leaving
      → Step s (record s { caller = gave_up; frame_live = false })
  set_remote :
      (s : Threads)
      → s.signaller ≡ queued
      → s.frame_live ≡ true
      → Step s (record s { signaller = remote_set })
  set_local :
      (s : Threads)
      → s.signaller ≡ remote_set
      → s.frame_live ≡ true
      → Step s (record s { signaller = local_set })
  enter_observer :
      (s : Threads)
      → s.signaller ≡ local_set
      → s.frame_live ≡ true
      → s.mutex ≡ free
      → Step s (record s { signaller = holding; mutex = signal_holds })
  set_ready :
      (s : Threads)
      → s.signaller ≡ holding
      → s.frame_live ≡ true
      → Step s (record s { signaller = ready_set; is_ready = true })
  notify :
      (s : Threads)
      → s.signaller ≡ ready_set
      → s.frame_live ≡ true
      → Step s (record s { signaller = notified; woken = is_waiting s.caller })
  leave_observer :
      (s : Threads)
      → s.signaller ≡ notified
      → s.frame_live ≡ true
      → Step s (record s { signaller = finished; mutex = free })
  -- A touch of the frame after it has ended.
  touch_dead :
      (s : Threads)
      → touches_frame s.signaller ≡ true
      → s.frame_live ≡ false
      → s.faulted ≡ false
      → Step s (record s { faulted = true })

-- The steps of the calling thread.
abbrev pub is_callers : {s t : Threads} → Step s t → Bool
is_callers (lock s h k) = true
is_callers (see_ready s h k) = true
is_callers (start_wait s h k) = true
is_callers (wake s h n k m) = true
is_callers (wake_unnotified s h k m) = true
is_callers (time_out s h k m) = true
is_callers (unlock_answer s h) = true
is_callers (return_answer s h) = true
is_callers (unlock_empty s h) = true
is_callers (return_empty s h) = true
is_callers _ = false

-- The steps that need no end of the three seconds and no wake-up for nothing.
abbrev pub is_prompt : {s t : Threads} → Step s t → Bool
is_prompt (wake_unnotified s h k m) = false
is_prompt (time_out s h k m) = false
is_prompt _ = true

pub data Reach : Threads → Type 0 where
  start : Reach begin
  next : {s t : Threads} → Reach s → Step s t → Reach t
