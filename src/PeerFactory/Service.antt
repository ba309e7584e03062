-- ===== src/PeerFactory/Service.antt =====
-- One call of PcFactory::CreatePeerConnection after another, over one signalling thread
-- (libwebrtc/PcFactory.cpp, lines 156 to 208). The thread that handles the HTTP requests makes the
-- calls. The signalling thread runs the tasks posted to it one at a time and in order, so that a
-- task begins once those of the earlier calls are over. An observer of an earlier call may come, or
-- go on, at any time.
pub mod Order
use webrtc_echoes.Base.{ℕ, ◌+◌, ◌-◌, ◌<◌, ◌≡◌, ◌⊎◌, Bool, true, false, Option, none, some}
use webrtc_echoes.PeerFactory.Wait.{
  Signaller, Threads, Step, Reach, begin, touches_frame, queued, remote_set, local_set, answered,
  gave_up,
}

-- `current` is the call being made. `tasks` counts the calls that gave up and whose task is not over,
-- `observers` those whose task is over and whose observer has not finished. `early` counts the calls that
-- gave up before their task was over. `faulted` says whether the signalling thread has used the frame
-- of a call that gave up.
pub record Service : Type 0 where
  pub current : Option Threads
  pub tasks : ℕ
  pub observers : ℕ
  pub early : ℕ
  pub faulted : Bool

abbrev pub idle : Service
idle = record { current = none; tasks = 0; observers = 0; early = 0; faulted = false }

-- The task of a call is over once it has asked for the local description.
abbrev pub task_open : Signaller → Bool
task_open queued = true
task_open remote_set = true
task_open _ = false

-- The task begins with this step.
abbrev pub begins_task : {s t : Threads} → Step s t → Bool
begins_task (Step.set_remote s h k) = true
begins_task _ = false

-- The use of a dead frame is a step of the service.
abbrev pub is_touch : {s t : Threads} → Step s t → Bool
is_touch (Step.touch_dead s h k m) = true
is_touch _ = false

pub data ServiceStep : Service → Service → Type 0 where
  arrive : (s : Service) → s.current ≡ none → ServiceStep s (record s { current = some begin })
  go_on :
      (s : Service) {t u : Threads} (st : Step t u)
      → s.current ≡ some t
      → is_touch st ≡ false
      → (begins_task st ≡ false) ⊎ (s.tasks ≡ 0)
      → ServiceStep s (record s { current = some u })
  leave_answered :
      (s : Service) (t : Threads)
      → s.current ≡ some t
      → t.caller ≡ answered
      → ServiceStep s (record s { current = none })
  leave_early :
      (s : Service) (t : Threads)
      → s.current ≡ some t
      → t.caller ≡ gave_up
      → task_open t.signaller ≡ true
      → ServiceStep s (record s { current = none; tasks = s.tasks + 1; early = s.early + 1 })
  leave_late :
      (s : Service) (t : Threads)
      → s.current ≡ some t
      → t.caller ≡ gave_up
      → task_open t.signaller ≡ false
      → touches_frame t.signaller ≡ true
      → ServiceStep s (record s { current = none; observers = s.observers + 1 })
  -- The observer came between the end of the wait and the return.
  leave_done :
      (s : Service) (t : Threads)
      → s.current ≡ some t
      → t.caller ≡ gave_up
      → touches_frame t.signaller ≡ false
      → ServiceStep s (record s { current = none })
  -- What is left of a call that gave up uses its frame.
  use_by_task :
      (s : Service) → 0 < s.tasks → ServiceStep s (record s { tasks = s.tasks - 1; faulted = true })
  use_by_observer :
      (s : Service)
      → 0 < s.observers
      → ServiceStep s (record s { observers = s.observers - 1; faulted = true })

pub data Runs : Service → Type 0 where
  start_service : Runs idle
  continue_service : {s t : Service} → Runs s → ServiceStep s t → Runs t
