-- ===== src/Daemon/Tests.antt =====
-- Processes of simple_daemon.c with concrete answers of the system.
use c_playground.Prelude.{◌≡◌, refl, some, List, [], ◌∷◌, if◌then◌else◌}
use c_playground.Machine.{ℤ, pos, negsuc}
use c_playground.Calls.{exit_failure, exit_success, made, ending, Follows, some_marked}
use c_playground.Daemon.{daemon}
use c_playground.Daemon.Laws.{started, detaching, fails, daemon-Follows, daemon-ends}

-- All calls succeed, in the child.
abbrev fine : List ℤ
fine =
    pos 0
    ∷ pos 18
    ∷ pos 0
    ∷ pos 0
    ∷ pos 0
    ∷ pos 77
    ∷ pos 0
    ∷ pos 3
    ∷ pos 4
    ∷ pos 5
    ∷ pos 1
    ∷ pos 0
    ∷ []

works : ending daemon fine ≡ some exit_success
unfolding daemon
works = refl

daemon-Follows_example : Follows detaching started (made daemon fine)
daemon-Follows_example = daemon-Follows fine

-- `setsid` fails.
abbrev no_session : List ℤ
no_session = pos 0 ∷ pos 18 ∷ pos 0 ∷ pos 0 ∷ pos 0 ∷ negsuc 0 ∷ []

daemon-ends_example :
    exit_failure
    ≡ (if some_marked fails (made daemon no_session) then exit_failure else exit_success)
unfolding daemon
daemon-ends_example = daemon-ends no_session exit_failure refl
