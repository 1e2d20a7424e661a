-- ===== src/Machine/Runs.antt =====
-- Results of a run: a value, undefined behaviour, or a loop that has used up its rounds.
use c_playground.Prelude.{Bool, true, false}
use c_playground.Machine.Ints.{ℤ, fits_int, ◌+ℤ◌, ◌-ℤ◌, scale}
use c_playground.Prelude.{ℕ}

pub data Run {ℓ} (A : Type ℓ) : Type ℓ where
  ok : A → Run A
  undefined : Run A
  out_of_fuel : Run A

abbrev pub and_then {ℓ κ} : {A : Type ℓ} {B : Type κ} → Run A → (A → Run B) → Run B
and_then (ok a) f = f a
and_then undefined f = undefined
and_then out_of_fuel f = out_of_fuel

-- Overflow of `int` is undefined.
abbrev pub checked_if : Bool → ℤ → Run ℤ
checked_if true x = ok x
checked_if false x = undefined

abbrev pub checked : ℤ → Run ℤ
checked x = checked_if (fits_int x) x

abbrev pub int_add : ℤ → ℤ → Run ℤ
int_add a b = checked (a +ℤ b)

abbrev pub int_sub : ℤ → ℤ → Run ℤ
int_sub a b = checked (a -ℤ b)

abbrev pub int_scale : ℤ → ℕ → Run ℤ
int_scale a k = checked (scale a k)
