-- ===== src/Console.antt =====
-- Console/console_template.c: `parse_commands`, `setup_configurations`, `main`.
pub mod Tests
use c_playground.Prelude.{
  ℕ, zero, ◌≡◌, refl, Bool, true, false, Option, ℕ_discrete, Bool-cases, inl, inr, none, some, List,
  [], ◌∷◌, arith, ◌==◌, if◌then◌else◌,
}
use c_playground.Machine.{ℤ, pos, negsuc}
use c_playground.Logger.{Log, setup_logger}
use c_playground.Getopt.{
  Text, Call, Library, Outcome, continues, exit_failure, undefined, and_then, each_call, last_given,
  given_or, given_or-first, some_call, HasArguments, level_of, copied, open_log, set_up,
}

-- The globals `log_file` and `log_level`.
pub record Config : Type 0 where
  pub log_file : Option Text
  pub log_level : ℤ

abbrev log_level_error : ℤ
log_level_error = pos 1

abbrev start_config : Config
start_config = record { log_file = none; log_level = log_level_error }

-- `case 'L'`; `strdup` of NULL is undefined.
abbrev set_log_file : Library → Option Text → Config → Outcome Config
set_log_file lib none c = undefined
set_log_file lib (some t) c = continues (record c { log_file = lib.strdup t })

-- The switch: 'L' is 76 and 'l' is 108; every other value prints the usage and exits.
abbrev on_option : Library → Call → Config → Outcome Config
on_option lib call c =
    if call.opt == 76
    then set_log_file lib call.optarg c
    else if call.opt == 108
    then continues (record c { log_level = level_of lib call.optarg })
    else exit_failure

abbrev pub parse_commands : Library → List Call → Config → Outcome Config
parse_commands lib calls c = each_call (on_option lib) calls c

-- `setup_configurations`
abbrev pub setup_configurations : Library → Config → Log → Outcome Log
setup_configurations lib c log = set_up (setup_logger (open_log lib c.log_file) c.log_level log)

-- `main`, with what the calls of `getopt_long` return.
unfoldable pub main : Library → List Call → Log → Outcome Log
main lib calls log =
    and_then (parse_commands lib calls start_config) λ c. setup_configurations lib c log

-- What a list of calls asks for, call by call.
abbrev pub refused : Call → Bool
refused call = if call.opt == 76 then false else if call.opt == 108 then false else true

abbrev pub file_given : Library → Call → Option (Option Text)
file_given lib call = if call.opt == 76 then some (copied lib call.optarg) else none

abbrev pub level_given : Library → Call → Option ℤ
level_given lib call =
    if call.opt == 76
    then none
    else if call.opt == 108
    then some (level_of lib call.optarg)
    else none

abbrev parsed : Library → List Call → Config → Outcome Config
parsed lib calls c =
    if some_call refused calls
    then exit_failure
    else continues (record {
      log_file = given_or (last_given (file_given lib) calls) c.log_file;
      log_level = given_or (last_given (level_given lib) calls) c.log_level;
    })

abbrev pub needs_argument : ℕ → Bool
needs_argument opt = opt == 76

module _ (lib : Library) (call : Call) (calls : List Call) (c : Config) where
  parsed-file :
      (t : Text)
      → call.opt ≡ 76
      → call.optarg ≡ some t
      → parsed lib (call ∷ calls) c ≡ parsed lib calls (record c { log_file = lib.strdup t })
  parsed-file t is_file there =
      rw
        (
          given_or-first (last_given (file_given lib) calls) (file_given lib call) c.log_file,
          given_or-first (last_given (level_given lib) calls) (level_given lib call) c.log_level,
          is_file,
          there,
        )
        refl

  parsed-level :
      call.opt ≡ 108
      → parsed lib (call ∷ calls) c
        ≡ parsed lib calls (record c { log_level = level_of lib call.optarg })
  parsed-level is_level =
      rw
        (
          given_or-first (last_given (file_given lib) calls) (file_given lib call) c.log_file,
          given_or-first (last_given (level_given lib) calls) (level_given lib call) c.log_level,
          is_level,
        )
        refl

parse_commands-parsed :
    (lib : Library) (calls : List Call) (c : Config)
    → HasArguments needs_argument calls
    → parse_commands lib calls c ≡ parsed lib calls c
parse_commands-parsed lib [] c has = refl
parse_commands-parsed lib (call ∷ calls) c has = elim (ℕ_discrete call.opt 76) [
  | yes is_file ↦
      let t = has.0 (ground (arith, is_file)) in
      let rest = parse_commands-parsed lib calls (record c { log_file = lib.strdup t.0 }) has.1 in
      let same = parsed-file lib call calls c t.0 is_file t.1 in
      let there = t.1 in ground (arith, is_file, there, rest, same)
  | no not_file ↦ elim (ℕ_discrete call.opt 108) [
    | yes is_level ↦
        let rest =
          parse_commands-parsed lib calls (record c { log_level = level_of lib call.optarg })
            has.1 in
        let same = parsed-level lib call calls c is_level in ground (arith, is_level, rest, same)
    | no other ↦ ground (arith, not_file, other)
  ]
]

-- When `getopt_long` leaves an argument for every option that needs one: console_template ends with a
-- failure when some option is neither 'L' nor 'l', and otherwise its log goes to what `fopen` made of
-- the last 'L' (to stderr when there is none or `fopen` failed), at the level of the last 'l', which
-- is LOG_LEVEL_INFO without an argument, or at LOG_LEVEL_ERROR without any 'l'.
pub main-cases :
    (lib : Library) (calls : List Call) (log : Log)
    → HasArguments needs_argument calls
    → main lib calls log ≡ (
        if some_call refused calls
        then exit_failure
        else continues (record log {
          default_log_stream = open_log lib (given_or (last_given (file_given lib) calls) none);
          default_log_level = given_or (last_given (level_given lib) calls) (pos 1);
        }))
unfolding main setup_logger
main-cases lib calls log has =
    let e = parse_commands-parsed lib calls start_config has in
    elim (Bool-cases (some_call refused calls)) [
      | inl off ↦ ground (arith, e, off)
      | inr on ↦ ground (arith, e, on)
    ]
