-- ===== src/DataChannel/Client/Program/Exit.antt =====
-- With what the client exits, on every branch of its main function.
use webrtc_echoes.Base.{
  ℕ, ◌≡◌, refl, ap, Option, none, some, List, if◌then◌else◌, ℤ, pos, negsuc, Bytes,
}
use webrtc_echoes.DataChannel.Args.{Start, help_exit, undefined, refused, begins, start}
use webrtc_echoes.DataChannel.Client.Session.{Event}
use webrtc_echoes.DataChannel.Client.Verdict.{passes, session-passes}
use webrtc_echoes.DataChannel.Client.Program.{main, main_from, exit_code_of, test_text}

-- The exit code, given how the command line starts the client.
abbrev pub exit_of : (ℕ → ℕ) → List Event → Start → Option ℤ
exit_of draw events help_exit = some (pos 0)
exit_of draw events undefined = none
exit_of draw events (refused e) = some (negsuc 0)
exit_of draw events (begins channel_test server path) =
    some (if passes channel_test (test_text draw channel_test) path events then pos 0 else negsuc 0)

main_from-exit_of :
    (draw : ℕ → ℕ) (events : List Event) (s : Start)
    → exit_code_of (main_from draw events s) ≡ exit_of draw events s
unfolding main_from
main_from-exit_of draw events help_exit = refl
main_from-exit_of draw events undefined = refl
main_from-exit_of draw events (refused e) = refl
main_from-exit_of draw events (begins channel_test server path) =
    ap some (session-passes channel_test (test_text draw channel_test) path events)

-- Unless its command line has a number that no int holds, which is undefined, the client exits with 0
-- where the command line asks for help, and with -1 where it is refused.
-- Otherwise it exits with 0 if the first event that decides its test passes it, and with -1 if that
-- event fails it or no event decides it in time: later events change nothing.
pub main-exit_of :
    (draw : ℕ → ℕ) (args : List Bytes) (events : List Event)
    → exit_code_of (main draw args events) ≡ exit_of draw events (start args)
unfolding main
main-exit_of draw args events = main_from-exit_of draw events (start args)
