-- ===== src/Pointers/Tests.antt =====
-- The pointer programs at concrete addresses.
use c_playground.Prelude.{◌≡◌, refl, none, some, ℕ_discrete}
use c_playground.Machine.{ok, undefined}
use c_playground.Pointers.{
  Memory, int, double_pointer_main, func_arg_main, free_pointer_main, free_main,
}
use c_playground.Pointers.Laws.{result}

abbrev blank : Memory
blank = λ a. none

through_both : result (double_pointer_main 1 (some 2) blank) ≡ ok (some (int 5))
unfolding double_pointer_main ℕ_discrete
through_both = refl

both_set : result (func_arg_main 1 (some 2) blank) ≡ ok (int 3, int 5)
unfolding func_arg_main ℕ_discrete
both_set = refl

local_freed : free_pointer_main 1 2 blank ≡ undefined
unfolding free_pointer_main ℕ_discrete
local_freed = refl

other_freed : free_main 1 (some 2) blank ≡ undefined
unfolding free_main ℕ_discrete
other_freed = refl
