-- ===== src/Tests/Service.antt =====
-- Two calls over one signalling thread, of which the first gives up.
use webrtc_echoes.Base.{◌≡◌, refl, inl, inr, true, false, none, some, arith}
use webrtc_echoes.PeerFactory.Wait.{
  Threads, begin, Step, lock, see_ready, start_wait, time_out, return_answer, return_empty,
  unlock_answer, unlock_empty, set_remote, set_local, enter_observer, set_ready, notify,
  leave_observer, finished, answered,
}
use webrtc_echoes.PeerFactory.Service.{
  Service, Runs, start_service, continue_service, arrive, go_on, leave_early, use_by_task, is_touch,
}
use webrtc_echoes.PeerFactory.Service.Order.{answered_after_fault}

-- The call gives up before its task has begun.
given_up : Runs (record { current = none; tasks = 1; observers = 0; early = 1; faulted = false })
given_up =
    continue_service
      (continue_service
        (continue_service
          (continue_service
            (continue_service
              (continue_service (continue_service start_service (arrive _ refl))
                (go_on _ (lock begin refl refl) refl refl (inl refl)))
              (go_on _ (start_wait _ refl refl) refl refl (inl refl)))
            (go_on _ (time_out _ refl refl refl) refl refl (inl refl)))
          (go_on _ (unlock_empty _ refl) refl refl (inl refl)))
        (go_on _ (return_empty _ refl) refl refl (inl refl)))
      (leave_early _ _ refl refl refl)

abbrev used : Service
used = record { current = none; tasks = 0; observers = 0; early = 1; faulted = true }

given_up_used : Runs used
given_up_used = continue_service given_up (use_by_task _ (omega arith))

-- Steps of a call behind which no task is left.
going_on :
    {s : Service} {t u : Threads}
    → Runs s
    → (st : Step t u) → s.current ≡ some t
    → is_touch st ≡ false
    → s.tasks ≡ 0
    → Runs (record s { current = some u })
going_on {s} run st e n clear = continue_service run (go_on s st e n (inr clear))

abbrev second_answer : Threads
second_answer = record begin {
  signaller = finished;
  is_ready = true;
  caller = answered;
  frame_live = false;
}

second_answered : Runs (record used { current = some second_answer })
second_answered =
    let begun = continue_service given_up_used (arrive _ refl) in
    let a = going_on begun (set_remote begin refl refl) refl refl refl in
    let b = going_on a (set_local _ refl refl) refl refl refl in
    let c = going_on b (enter_observer _ refl refl refl) refl refl refl in
    let d = going_on c (set_ready _ refl refl) refl refl refl in
    let e = going_on d (notify _ refl refl) refl refl refl in
    let f = going_on e (leave_observer _ refl refl) refl refl refl in
    let g = going_on f (lock _ refl refl) refl refl refl in
    let h = going_on g (see_ready _ refl refl) refl refl refl in
    let i = going_on h (unlock_answer _ refl) refl refl refl in
    going_on i (return_answer _ refl) refl refl refl

answered_after_fault_example : used.faulted ≡ true
answered_after_fault_example =
    answered_after_fault {t = second_answer} second_answered (omega arith) refl refl
