-- ===== src/PeerFactory/Service/Order.antt =====
-- What a call that has given up means for the calls after it.
use webrtc_echoes.Base.{
  ℕ, ◌-◌, ◌<◌, ◌≡◌, refl, subst, ◌⊎◌, inl, inr, Bool, true, false, Option, none, some, arith,
}
use webrtc_echoes.PeerFactory.Wait.{
  Signaller, Threads, Step, Reach, queued, next, answered, finished, start,
}
use webrtc_echoes.PeerFactory.Wait.Outcomes.{answered_safe}
use webrtc_echoes.PeerFactory.Service.{
  go_on, leave_answered, leave_early, leave_late, leave_done, use_by_task, use_by_observer, Service,
  begins_task, ServiceStep, Runs, arrive, start_service, continue_service,
}

abbrev has_begun : Signaller → Bool
has_begun queued = false
has_begun _ = true

-- Of the current call: its state is one that the two threads reach; and once its task has begun, no
-- task of an earlier call is left.
abbrev Current : ℕ → Option Threads → Type 0
Current tasks none = Unit {0}
Current tasks (some t) = Reach t × ((has_begun t.signaller ≡ false) ⊎ (tasks ≡ 0))

record Inv (s : Service) : Type 0 where
  current : Current s.tasks s.current
  accounted : (s.early ≡ 0) ⊎ ((0 < s.tasks) ⊎ (s.faulted ≡ true))

-- A step that does not begin the task leaves a queued task queued.
queued_until_begun :
    {t u : Threads} (st : Step t u)
    → begins_task st ≡ false
    → has_begun t.signaller ≡ false
    → has_begun u.signaller ≡ false
queued_until_begun (Step.lock s h k) b q = ground arith
queued_until_begun (Step.see_ready s h k) b q = ground arith
queued_until_begun (Step.start_wait s h k) b q = ground arith
queued_until_begun (Step.wake s h n k m) b q = ground arith
queued_until_begun (Step.wake_unnotified s h k m) b q = ground arith
queued_until_begun (Step.time_out s h k m) b q = ground arith
queued_until_begun (Step.unlock_answer s h) b q = ground arith
queued_until_begun (Step.return_answer s h) b q = ground arith
queued_until_begun (Step.unlock_empty s h) b q = ground arith
queued_until_begun (Step.return_empty s h) b q = ground arith
queued_until_begun (Step.set_remote s h k) b q = cc
queued_until_begun (Step.set_local s h k) b q = ground arith
queued_until_begun (Step.enter_observer s h k m) b q = ground arith
queued_until_begun (Step.set_ready s h k) b q = ground arith
queued_until_begun (Step.notify s h k) b q = ground arith
queued_until_begun (Step.leave_observer s h k) b q = ground arith
queued_until_begun (Step.touch_dead s h k m) b q = ground arith

goes_on :
    {t u : Threads} (tasks : ℕ) (st : Step t u)
    → (begins_task st ≡ false) ⊎ (tasks ≡ 0)
    → Current tasks (some t)
    → Current tasks (some u)
goes_on tasks st (inr clear) (r, open_) = (next r st, inr clear)
goes_on tasks st (inl b) (r, inl q) = (next r st, inl (queued_until_begun st b q))
goes_on tasks st (inl b) (r, inr clear) = (next r st, inr clear)

known :
    (tasks : ℕ) (c : Option Threads) (t : Threads)
    → c ≡ some t
    → Current tasks c
    → Current tasks (some t)
known tasks c t e h = subst (Current tasks) e h

used_task : (tasks : ℕ) (c : Option Threads) → 0 < tasks → Current tasks c → Current (tasks - 1) c
used_task tasks none h c = tt
used_task tasks (some t) h (r, inl q) = (r, inl q)
used_task tasks (some t) h (r, inr clear) = absurd (omega arith)

ServiceStep-Inv : {s t : Service} → ServiceStep s t → Inv s → Inv t
ServiceStep-Inv (arrive s e) v = record { current = (start, inl refl); accounted = v.accounted }
ServiceStep-Inv (go_on s {t} st e untouched b) v = record {
  current = goes_on s.tasks st b (known s.tasks s.current t e v.current);
  accounted = v.accounted;
}
ServiceStep-Inv (leave_answered s t e a) v = record { current = tt; accounted = v.accounted }
ServiceStep-Inv (leave_early s t e g o) v = record {
  current = tt;
  accounted = inr (inl (omega arith));
}
ServiceStep-Inv (leave_late s t e g o f) v = record { current = tt; accounted = v.accounted }
ServiceStep-Inv (leave_done s t e g o) v = record { current = tt; accounted = v.accounted }
ServiceStep-Inv (use_by_task s h) v = record {
  current = used_task s.tasks s.current h v.current;
  accounted = inr (inr refl);
}
ServiceStep-Inv (use_by_observer s h) v = record { current = v.current; accounted = inr (inr refl) }

Runs-Inv : {s : Service} → Runs s → Inv s
Runs-Inv start_service = record { current = tt; accounted = inl refl }
Runs-Inv (continue_service run st) = ServiceStep-Inv st (Runs-Inv run)

begun_clear :
    (tasks : ℕ) (t : Threads)
    → t.signaller ≡ finished
    → (has_begun t.signaller ≡ false) ⊎ (tasks ≡ 0)
    → tasks ≡ 0
begun_clear tasks t e (inl q) = absurd (ground arith)
begun_clear tasks t e (inr clear) = clear

-- Once a call has given up while its task was queued or running, no later call returns after seeing
-- isReady before the signalling thread has used the frame that the earlier call had left.
pub answered_after_fault :
    {s : Service} {t : Threads}
    → Runs s
    → 0 < s.early
    → s.current ≡ some t
    → t.caller ≡ answered
    → s.faulted ≡ true
answered_after_fault {s} {t} run gave e a =
    let v = Runs-Inv run in
    let (r, order) = known s.tasks s.current t e v.current in
    let (over, ready, sound) = answered_safe r a in
    let clear = begun_clear s.tasks t over order in ground (arith, v.accounted, clear)
