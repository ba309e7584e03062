-- ===== src/Tests/Factory.antt =====
-- PcFactory at concrete inputs, and two schedules of its threads.
use webrtc_echoes.Base.{
  ℕ, ◌≤◌, ◌≡◌, refl, ◌⊎◌, true, false, none, some, List, [], ◌∷◌, pos, Bytes, codes,
}
use webrtc_echoes.PeerFactory.Factory.{Factory, destroy}
use webrtc_echoes.PeerFactory.Create.{
  Library, returned, create_peer_connection, create_from, add_connection, negotiate, answer_from,
}
use webrtc_echoes.PeerFactory.Create.Results.{Offer, serve, destroy-serve}
use webrtc_echoes.PeerFactory.Call.{IsSettled, create_peer_connection-IsSettled}
use webrtc_echoes.PeerFactory.Create.Answers.{IsErrorText}
use webrtc_echoes.PeerFactory.Wait.{
  Threads, begin, Step, Reach, start, next, lock, see_ready, start_wait, wake, time_out,
  return_answer, return_empty, unlock_answer, unlock_empty, set_remote, set_local, enter_observer,
  set_ready, notify, leave_observer, finished, answered, gave_up,
}
use webrtc_echoes.PeerFactory.Wait.Outcomes.{
  answered_safe, gave_up_dangles, Answers, Reach-answered,
}
use webrtc_echoes.PeerFactory.Wait.Rank.{Steps, none_left, more, count}
use webrtc_echoes.PeerFactory.Wait.Termination.{IsOver, IsFree, call_ends}

-- Libraries for which a text stands for the JSON value that holds it.
abbrev good : ℕ → Library Bytes
good pc = record {
  parse = λ text. some text;
  sdp_of = λ json. some json;
  new_connection = some pc;
  audio_track = true;
  add_track = true;
  parse_sdp = λ sdp. true;
  ready_in_time = true;
  local_description = some (codes "v=0");
  dump = λ members. some (codes "{}");
}

abbrev two_offers : List (Offer Bytes)
two_offers =
    record { library = good 7; buffer = codes "offer"; size = pos 5 }
    ∷ record {
      library = record (good 8) { parse_sdp = λ sdp. false };
      buffer = codes "offer";
      size = pos 5;
    }
    ∷ []

abbrev empty_factory : Factory
empty_factory = record {
  has_factory = true;
  dependencies = none;
  peer_connections = [];
  close_calls = [];
}

-- The second offer is refused, and its connection is stored all the same.
two_answers :
    (serve two_offers empty_factory).0 ≡ returned (codes "{}") ∷ returned (codes "error") ∷ []
unfolding serve create_peer_connection create_from add_connection negotiate answer_from
two_answers = refl

-- Both connections are closed in the end.
two_closed : (destroy (serve two_offers empty_factory).1).close_calls ≡ 7 ∷ 8 ∷ []
two_closed = (destroy-serve two_offers empty_factory refl).0

-- The signalling thread is done before the caller locks.
abbrev quick : Threads
quick = record begin { signaller = finished; is_ready = true }

quick_reached : Reach quick
quick_reached =
    next
      (next
        (next
          (next (next (next start (set_remote _ refl refl)) (set_local _ refl refl))
            (enter_observer _ refl refl refl))
          (set_ready _ refl refl))
        (notify _ refl refl))
      (leave_observer _ refl refl)

abbrev quick_answer : Threads
quick_answer = record quick { caller = answered; frame_live = false }

quick_answer_reached : Reach quick_answer
quick_answer_reached =
    next
      (next (next (next quick_reached (lock _ refl refl)) (see_ready _ refl refl))
        (unlock_answer _ refl))
      (return_answer _ refl)

answered_safe_example :
    (quick_answer.signaller ≡ finished)
    × (quick_answer.is_ready ≡ true)
    × (quick_answer.faulted ≡ false)
answered_safe_example = answered_safe quick_answer_reached refl

-- The caller gives up before the task has begun.
abbrev late : Threads
late = record begin { caller = gave_up; frame_live = false }

late_reached : Reach late
late_reached =
    next
      (next
        (next (next (next start (lock _ refl refl)) (start_wait _ refl refl))
          (time_out _ refl refl refl))
        (unlock_empty _ refl))
      (return_empty _ refl)

gave_up_dangles_example :
    ((late.signaller ≡ finished) × ((t : Threads) → ¬ Step late t))
    ⊎ (Step late (record late { faulted = true })
        × ((t : Threads) → Step late t → t.faulted ≡ true))
gave_up_dangles_example = gave_up_dangles late_reached refl refl

Reach-answered_example : Answers quick
Reach-answered_example = Reach-answered quick_reached refl

-- The caller waits, the signalling thread makes the answer, and the caller wakes.
abbrev woken_answer : Threads
woken_answer = record quick_answer { woken = true }

abbrev answer_run : Steps begin woken_answer
answer_run = more (lock _ refl refl) (
    more (start_wait _ refl refl) (
      more (set_remote _ refl refl) (
        more (set_local _ refl refl) (
          more (enter_observer _ refl refl refl) (
            more (set_ready _ refl refl) (
              more (notify _ refl refl) (
                more (leave_observer _ refl refl) (
                  more (wake _ refl refl refl refl)
                    (more (unlock_answer _ refl) (more (return_answer _ refl) none_left))))))))))

call_ends_example :
    (count answer_run ≤ 11)
    × (IsOver woken_answer ⊎ ((u : Threads) × Step woken_answer u))
    × IsFree woken_answer
call_ends_example = call_ends answer_run

create_peer_connection-IsSettled_example : IsErrorText (codes "{}") ⊎ IsSettled quick_answer
unfolding create_peer_connection create_from add_connection negotiate answer_from
create_peer_connection-IsSettled_example =
    create_peer_connection-IsSettled (good 7) (codes "offer") (pos 5) empty_factory (codes "{}")
      quick_answer_reached refl
