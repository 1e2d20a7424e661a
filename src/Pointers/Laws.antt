-- ===== src/Pointers/Laws.antt =====
-- What the pointer programs do to the variables.
use c_playground.Prelude.{
  ℕ, ◌≡◌, ◌≢◌, refl, sym, ap, Bool, Option, none, some, arith, update, if◌then◌else◌, ℕ_discrete,
}
use c_playground.Machine.{Run, ok, undefined, out_of_fuel}
use c_playground.Pointers.{
  int, pointer, Cell, Memory, free_pointer_correctly, free_pointer_main, double_pointer_main, bar,
  func_arg_main, free_main,
}

-- For a pointer at `ptr` to another variable: if `malloc` made that, it is freed, the pointer is null
-- behind it and nothing else has changed; otherwise the call is undefined.
pub free_pointer_correctly-cases :
    (ptr a : ℕ) (own : Bool) (c : Cell) (m : Memory)
    → ptr ≢ a
    → m ptr ≡ some (record { allocated = own; value = pointer (some a) })
    → m a ≡ some c
    → free_pointer_correctly ptr m ≡ (
        if c.allocated
        then ok (
          tt,
          update (update m a none) ptr (some (record { allocated = own; value = pointer none })),
        )
        else undefined)
unfolding free_pointer_correctly
free_pointer_correctly-cases ptr a own c m apart here there = ground (arith, apart, here, there)

-- `main` of free_pointer.c frees a local, wherever its locals lie.
pub free_pointer_main-undefined :
    (value ptr : ℕ) (m : Memory) → value ≢ ptr → free_pointer_main value ptr m ≡ undefined
unfolding free_pointer_main
free_pointer_main-undefined value ptr m apart = ground (arith, apart)

-- What a program returns, without the memory behind it.
abbrev pub result : {A : Type 0} → Run (A × Memory) → Run A
result (ok (a, m)) = ok a
result undefined = undefined
result out_of_fuel = out_of_fuel

-- A result that needs `malloc` to grant its block.
abbrev pub if_granted : {A : Type 0} → Option ℕ → A → Run A
if_granted none a = undefined
if_granted (some _) a = ok a

-- With a block, `main` of double_pointer_ops.c finds the 5 through both pointers, and frees the block;
-- without one it follows a null pointer.
pub double_pointer_main-cases :
    (value : ℕ) (granted : Option ℕ) (m : Memory)
    → granted ≢ some value
    → result (double_pointer_main value granted m) ≡ if_granted granted (some (int 5))
unfolding double_pointer_main
double_pointer_main-cases value none m apart = refl
double_pointer_main-cases value (some a) m apart =
    let other : value ≢ a = λ e. apart (ap some (sym e)) in ground (arith, other)

-- With a block, `main` of func_arg_ptr.c ends with 3 in the local and 5 in the block; without one it
-- follows a null pointer.
pub func_arg_main-cases :
    (num : ℕ) (granted : Option ℕ) (m : Memory)
    → granted ≢ some num
    → result (func_arg_main num granted m) ≡ if_granted granted (int 3, int 5)
unfolding func_arg_main
func_arg_main-cases num none m apart = refl
func_arg_main-cases num (some a) m apart =
    let other : num ≢ a = λ e. apart (ap some (sym e)) in ground (arith, other)

-- If the two pointers of `bar` are one address, that holds 5 in the end, otherwise 3 and 5.
pub bar-cases :
    (a b : ℕ) (c d : Cell) (m : Memory)
    → m a ≡ some c
    → m b ≡ some d
    → (m' : Memory) × (bar (pointer (some a)) (pointer (some b)) m ≡ ok (tt, m'))
      × (m' b ≡ some (record d { value = int 5 }))
      × (a ≢ b → m' a ≡ some (record c { value = int 3 }))
unfolding bar
bar-cases a b c d m here there =
    let after : Memory =
      update (update m a (some (record c { value = int 3 }))) b
        (some (record d { value = int 5 })) in
    (
      after,
      elim (ℕ_discrete a b) [
        | yes e ↦ ground (arith, here, there, e)
        | no ne ↦ ground (arith, here, there, ne)
      ],
      ground arith,
      λ apart. ground (arith, apart),
    )

-- `main` of free.c frees a local.
pub free_main-undefined :
    (num : ℕ) (granted : Option ℕ) (m : Memory)
    → granted ≢ some num
    → free_main num granted m ≡ undefined
unfolding free_main
free_main-undefined num none m apart = ground arith
free_main-undefined num (some a) m apart =
    let other : num ≢ a = λ e. apart (ap some (sym e)) in ground (arith, other)
