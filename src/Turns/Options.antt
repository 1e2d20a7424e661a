-- ===== src/Turns/Options.antt =====
-- Pthread/producer_consumer.c: `parse_commands` and `setup_configurations`, which `main` begins with.
use c_playground.Prelude.{ℕ, Bool, true, false, Option, none, some, List, ◌==◌, ◌||◌, if◌then◌else◌}
use c_playground.Machine.{ℤ, pos, to_size}
use c_playground.Logger.{Log, setup_logger}
use c_playground.Getopt.{
  Text, Call, Library, Outcome, continues, exit_failure, undefined, and_then, each_call, last_given,
  given_or, some_call, level_of, copied, open_log, set_up,
}

-- The globals `buffer_capacity`, `log_file` and `log_level`.
pub record Config : Type 0 where
  pub buffer_capacity : ℕ
  pub log_file : Option Text
  pub log_level : ℤ

abbrev pub start_config : Config
start_config = record { buffer_capacity = 100; log_file = none; log_level = pos 3 }

-- `case 'L'`; `strdup` of NULL is undefined.
abbrev set_log_file : Library → Option Text → Config → Outcome Config
set_log_file lib none c = undefined
set_log_file lib (some t) c = continues (record c { log_file = lib.strdup t })

-- `case 's'`, which falls through to `case 'L'`; `atoi` of NULL is undefined.
abbrev set_capacity : Library → Option Text → Config → Outcome Config
set_capacity lib none c = undefined
set_capacity lib (some t) c =
    set_log_file lib (some t) (record c { buffer_capacity = to_size (lib.atoi t) })

-- The switch: 's' is 115, 'L' is 76 and 'l' is 108; every other value prints the usage and exits.
abbrev on_option : Library → Call → Config → Outcome Config
on_option lib call c =
    if call.opt == 115
    then set_capacity lib call.optarg c
    else if call.opt == 76
    then set_log_file lib call.optarg c
    else if call.opt == 108
    then continues (record c { log_level = level_of lib call.optarg })
    else exit_failure

abbrev pub parse_commands : Library → List Call → Config → Outcome Config
parse_commands lib calls c = each_call (on_option lib) calls c

-- `setup_configurations`
abbrev pub setup_configurations : Library → Config → Log → Outcome Log
setup_configurations lib c log = set_up (setup_logger (open_log lib c.log_file) c.log_level log)

-- The first two calls of `main`, with what the calls of `getopt_long` return.
unfoldable pub configure : Library → List Call → Log → Outcome (Config × Log)
configure lib calls log =
    and_then (parse_commands lib calls start_config)
      λ c. and_then (setup_configurations lib c log) λ log'. continues (c, log')

-- What a list of calls asks for, call by call.
abbrev pub refused : Call → Bool
refused call =
    if call.opt == 115
    then false
    else if call.opt == 76
    then false
    else if call.opt == 108
    then false
    else true

abbrev pub file_given : Library → Call → Option (Option Text)
file_given lib call =
    if (call.opt == 115) || (call.opt == 76) then some (copied lib call.optarg) else none

abbrev pub capacity_of : Library → Option Text → ℕ
capacity_of lib none = 0
capacity_of lib (some t) = to_size (lib.atoi t)

abbrev pub capacity_given : Library → Call → Option ℕ
capacity_given lib call = if call.opt == 115 then some (capacity_of lib call.optarg) else none

-- The number that an argument stands for, or `default` without one.
abbrev pub number_or : (atoi : Text → ℤ) → (default : ℤ) → Option Text → ℤ
number_or atoi default none = default
number_or atoi default (some t) = atoi t

-- The stream of a file that is named, or none.
abbrev pub stream_of : (fopen : Text → Option ℕ) → Option Text → Option ℕ
stream_of fopen none = none
stream_of fopen (some t) = fopen t

abbrev pub level_given : Library → Call → Option ℤ
level_given lib call =
    if (call.opt == 115) || (call.opt == 76)
    then none
    else if call.opt == 108
    then some (number_or lib.atoi (pos 3) call.optarg)
    else none

abbrev parsed : Library → List Call → Config → Outcome Config
parsed lib calls c =
    if some_call refused calls
    then exit_failure
    else continues (record {
      buffer_capacity = given_or (last_given (capacity_given lib) calls) c.buffer_capacity;
      log_file = given_or (last_given (file_given lib) calls) c.log_file;
      log_level = given_or (last_given (level_given lib) calls) c.log_level;
    })

abbrev pub needs_argument : ℕ → Bool
needs_argument opt = (opt == 115) || (opt == 76)
