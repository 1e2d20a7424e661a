-- ===== src/Pointers.antt =====
-- Pointers/free_pointer.c, Pointers/double_pointer_ops.c, Miscs/func_arg_ptr.c and Miscs/free.c: small
-- programs on pointers to locals and to blocks of `malloc`. The output is left out.
pub mod Laws
mod Tests
use c_playground.Prelude.{ℕ, Bool, true, false, Option, none, some, update, if◌then◌else◌}
use c_playground.Machine.{Run, ok, undefined, out_of_fuel}

-- What a variable holds; a null pointer is `pointer none`.
pub data Value : Type 0 where
  garbage : Value
  int : ℕ → Value
  pointer : Option ℕ → Value

-- A variable: whether `malloc` made it, and what it holds.
pub record Cell : Type 0 where
  pub allocated : Bool
  pub value : Value

-- The variables that live, by their address.
abbrev pub Memory : Type 0
Memory = ℕ → Option Cell

abbrev pub Cmd : Type 0 → Type 0
Cmd A = Memory → Run (A × Memory)

abbrev pub run_then : {A B : Type 0} → Run (A × Memory) → (A → Cmd B) → Run (B × Memory)
run_then (ok (a, m)) f = f a m
run_then undefined f = undefined
run_then out_of_fuel f = out_of_fuel

infixl 5 ◌>>=◌ ◌>>◌
abbrev pub ◌>>=◌ : {A B : Type 0} → Cmd A → (A → Cmd B) → Cmd B
◌>>=◌ c f m = run_then (c m) f

abbrev pub ◌>>◌ : {B : Type 0} → Cmd (Unit {0}) → Cmd B → Cmd B
c >> d = c >>= λ _. d

abbrev pub pure : {A : Type 0} → A → Cmd A
pure a m = ok (a, m)

-- A variable that comes to life at an address.
abbrev pub declare : (allocated : Bool) (at : ℕ) → Value → Cmd (Unit {0})
declare allocated at v m = ok (tt, update m at (some (record { allocated = allocated; value = v })))

abbrev load_cell : Option Cell → Cmd Value
load_cell none m = undefined
load_cell (some c) m = ok (c.value, m)

abbrev pub load : ℕ → Cmd Value
load at m = load_cell (m at) m

abbrev store_cell : Option Cell → ℕ → Value → Cmd (Unit {0})
store_cell none at v m = undefined
store_cell (some c) at v m = ok (tt, update m at (some (record c { value = v })))

abbrev pub store : ℕ → Value → Cmd (Unit {0})
store at v m = store_cell (m at) at v m

-- The address that `*p` stands for.
abbrev pub target : Value → Cmd ℕ
target (pointer (some a)) = pure a
target _ = λ m. undefined

-- `malloc` of one variable, at the address that it grants, if any.
abbrev pub malloc : Option ℕ → Cmd Value
malloc none = pure (pointer none)
malloc (some a) = do declare true a garbage; pure (pointer (some a))

abbrev free_cell : Option Cell → ℕ → Cmd (Unit {0})
free_cell none a m = undefined
free_cell (some c) a m = if c.allocated then ok (tt, update m a none) else undefined

-- `free`; undefined for what `malloc` did not make.
abbrev pub free : Value → Cmd (Unit {0})
free (pointer none) m = ok (tt, m)
free (pointer (some a)) m = free_cell (m a) a m
free _ m = undefined

-- free_pointer.c. A pointer to a pointer is the address of that.
unfoldable pub free_pointer_correctly : (ptr : ℕ) → Cmd (Unit {0})
free_pointer_correctly ptr = do tmp_ptr ← load ptr; free tmp_ptr; store ptr (pointer none)

-- `main` of free_pointer.c, with the addresses of its locals; it gives what `ptr` holds in the end.
unfoldable pub free_pointer_main : (value ptr : ℕ) → Cmd Value
unfolding free_pointer_correctly
free_pointer_main value ptr = do
  declare false value (int 5)
  declare false ptr (pointer (some value))
  free_pointer_correctly ptr
  load ptr

-- double_pointer_ops.c
unfoldable pub try_assign_double_pointer : (single_ptr double_ptr : Value) → Cmd (Unit {0})
try_assign_double_pointer single_ptr double_ptr = do at ← target double_ptr; store at single_ptr

-- The test of `*double_ptr`: `**double_ptr` if it is no null pointer.
abbrev look_through : Value → Cmd (Option Value)
look_through (pointer none) = pure none
look_through v = do at ← target v; w ← load at; pure (some w)

-- Its `main`, with what `malloc` grants; it gives what `**double_ptr` is, if it is looked at.
unfoldable pub double_pointer_main : (value : ℕ) (granted : Option ℕ) → Cmd (Option Value)
unfolding try_assign_double_pointer
double_pointer_main value granted = do
  declare false value (int 5)
  double_ptr ← malloc granted
  try_assign_double_pointer (pointer (some value)) double_ptr
  at ← target double_ptr
  v ← load at
  found ← look_through v
  free double_ptr
  pure found

-- func_arg_ptr.c
unfoldable pub bar : (ptr foo : Value) → Cmd (Unit {0})
bar ptr foo = do at ← target ptr; store at (int 3); at' ← target foo; store at' (int 5)

-- Its `main`: what `num` and `foo_t->x` are in the end.
unfoldable pub func_arg_main : (num : ℕ) (granted : Option ℕ) → Cmd (Value × Value)
unfolding bar
func_arg_main num granted = do
  foo_t ← malloc granted
  at ← target foo_t
  store at (int 6)
  declare false num (int 8)
  bar (pointer (some num)) foo_t
  n ← load num
  x ← load at
  pure (n, x)

-- `main` of free.c: `ptr` is made to point to `num` and freed.
unfoldable pub free_main : (num : ℕ) (granted : Option ℕ) → Cmd Value
free_main num granted = do
  declare false num (int 8)
  lost ← malloc granted
  free (pointer (some num))
  load num
