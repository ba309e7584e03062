-- ===== src/PeerFactory/Wait/Rank.antt =====
-- Runs of the two threads, and how far from their end a state is.
use webrtc_echoes.Base.{ℕ, suc, ◌+◌, Bool, true, ◌&&◌, if◌then◌else◌}
use webrtc_echoes.PeerFactory.Wait.{
  Caller, Signaller, Threads, Step, is_prompt, locking, testing, waiting, reading, timed_out,
  queued, remote_set, local_set, holding, ready_set, notified, finished, answering, leaving,
}

-- Several steps.
pub data Steps : Threads → Threads → Type 0 where
  none_left : {s : Threads} → Steps s s
  more : {s t u : Threads} → Step s t → Steps t u → Steps s u

abbrev pub count : {s t : Threads} → Steps s t → ℕ
count none_left = 0
count (more st rest) = suc (count rest)

-- No step of the run waits for the end of the three seconds or wakes up for nothing.
abbrev pub all_prompt : {s t : Threads} → Steps s t → Bool
all_prompt none_left = true
all_prompt (more st rest) = is_prompt st && all_prompt rest

-- The steps that each thread has left at most.
unfoldable pub caller_rank : Caller → ℕ
caller_rank locking = 5
caller_rank testing = 4
caller_rank waiting = 3
caller_rank reading = 2
caller_rank timed_out = 2
caller_rank answering = 1
caller_rank leaving = 1
caller_rank _ = 0

unfoldable pub signaller_rank : Signaller → ℕ
signaller_rank queued = 6
signaller_rank remote_set = 5
signaller_rank local_set = 4
signaller_rank holding = 3
signaller_rank ready_set = 2
signaller_rank notified = 1
signaller_rank finished = 0

-- A fault ends the signalling thread's part.
unfoldable pub rank : Threads → ℕ
unfolding caller_rank signaller_rank
rank s = caller_rank s.caller + (if s.faulted then 0 else signaller_rank s.signaller)
