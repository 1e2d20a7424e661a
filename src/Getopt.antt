-- ===== src/Getopt.antt =====
-- What the option loops of Console/console_template.c and Pthread/producer_consumer.c share: the
-- calls of `getopt_long`, and how a program ends that reads them.
use c_playground.Prelude.{
  ℕ, zero, ◌≡◌, refl, Bool, true, false, Option, none, some, List, [], ◌∷◌, ◌||◌,
}
use c_playground.Machine.{ℤ, pos}
use c_playground.Logger.{Log}

-- A string: its characters.
abbrev pub Text : Type 0
Text = List ℕ

-- What one call of `getopt_long` returns, and where `optarg` points then (`none` is NULL).
pub record Call : Type 0 where
  pub opt : ℕ
  pub optarg : Option Text

-- `strdup` (NULL when there is no memory), `atoi`, and `fopen` of a log file (a stream or NULL).
pub record Library : Type 0 where
  pub strdup : Text → Option Text
  pub atoi : Text → ℤ
  pub fopen : Text → Option ℕ

-- A part of the program goes on with a state, exits with EXIT_FAILURE, or is undefined.
pub data Outcome (A : Type 0) : Type 0 where
  continues : A → Outcome A
  exit_failure : Outcome A
  undefined : Outcome A

abbrev pub and_then : {A B : Type 0} → Outcome A → (A → Outcome B) → Outcome B
and_then (continues a) f = f a
and_then exit_failure f = exit_failure
and_then undefined f = undefined

-- `while ((opt = getopt_long(…)) != -1) switch (opt) …`, on what the calls return before -1.
abbrev pub each_call : {A : Type 0} → (Call → A → Outcome A) → List Call → A → Outcome A
each_call f [] a = continues a
each_call f (call ∷ calls) a = and_then (f call a) (each_call f calls)

-- What the last of the calls says that says anything.
abbrev or_first : {A : Type 0} → Option A → Option A → Option A
or_first (some a) o = some a
or_first none o = o

abbrev pub last_given : {A : Type 0} → (Call → Option A) → List Call → Option A
last_given pick [] = none
last_given pick (call ∷ calls) = or_first (last_given pick calls) (pick call)

abbrev pub given_or : {A : Type 0} → Option A → A → A
given_or none a = a
given_or (some b) a = b

pub given_or-first :
    {A : Type 0} (late early : Option A) (a : A)
    → given_or (or_first late early) a ≡ given_or late (given_or early a)
given_or-first none early a = refl
given_or-first (some b) early a = refl

abbrev pub some_call : (Call → Bool) → List Call → Bool
some_call test [] = false
some_call test (call ∷ calls) = test call || some_call test calls

-- `getopt_long` leaves `optarg` for every option that has a required argument.
abbrev pub HasArguments : (needs : ℕ → Bool) → List Call → Type 0
HasArguments needs [] = Unit
HasArguments needs (call ∷ calls) =
    (needs call.opt ≡ true → (t : Text) × (call.optarg ≡ some t)) × HasArguments needs calls

abbrev log_level_info : ℤ
log_level_info = pos 3

-- The level that 'l' asks for.
abbrev pub level_of : Library → Option Text → ℤ
level_of lib none = log_level_info
level_of lib (some t) = lib.atoi t

-- `strdup` of an argument, which is there.
abbrev pub copied : Library → Option Text → Option Text
copied lib none = none
copied lib (some t) = lib.strdup t

-- What `setup_configurations` makes of a file name, and of what `setup_logger` did.
abbrev pub open_log : Library → Option Text → Option ℕ
open_log lib none = none
open_log lib (some t) = lib.fopen t

abbrev pub set_up : ℤ × Log → Outcome Log
set_up (pos zero, log) = continues log
set_up (_, log) = exit_failure
