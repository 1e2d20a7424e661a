-- ===== src/Descriptors/Tests.antt =====
-- The file programs with concrete answers of the system.
use c_playground.Prelude.{◌≡◌, refl, true, some, List, [], ◌∷◌}
use c_playground.Machine.{ℤ, pos, negsuc}
use c_playground.Calls.{exit_success, exit_failure, ending}
use c_playground.Descriptors.{posix_open, lseek_main}

-- The second open fails, and the program ends as if it had not.
abbrev second_fails : List ℤ
second_fails = pos 3 ∷ negsuc 0 ∷ pos 4 ∷ pos 0 ∷ pos 0 ∷ negsuc 0 ∷ []

unnoticed : ending posix_open second_fails ≡ some exit_success
unfolding posix_open
unnoticed = refl

no_argument : ending (lseek_main 1 true) [] ≡ some exit_failure
unfolding lseek_main
no_argument = refl
