-- ===== src/HelloThreads/Tests.antt =====
-- A run of hello_pthread.c whose second thread is not created.
use c_playground.Prelude.{◌≡◌, refl, some, List, [], ◌∷◌}
use c_playground.Machine.{ℤ, pos}
use c_playground.Calls.{exit_success, ending}
use c_playground.HelloThreads.{hello}

abbrev no_second : List ℤ
no_second = pos 0 ∷ pos 11 ∷ pos 0 ∷ pos 3 ∷ []

unnoticed : ending hello no_second ≡ some exit_success
unfolding hello
unnoticed = refl
