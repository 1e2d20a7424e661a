-- ===== src/Logger/Calls.antt =====
-- common/logger.h: the macros `LOGGING_FATAL` to `LOGGING_DEBUG`, in a row; and common/logger_test.c.
pub mod Laws
mod Tests
use c_playground.Prelude.{ℕ, true, Option, none, some, List, [], ◌∷◌}
use c_playground.Machine.{ℤ, pos, Run, ok, undefined, and_then}
use c_playground.Logger.{Pieces, text, Log, setup_logger, log_msg}

-- A use of a macro whose three pieces are formatted: the level, and the texts of tag, body and place.
pub record Message : Type 0 where
  pub level : ℕ
  pub tag : List ℕ
  pub body : List ℕ
  pub place : List ℕ

abbrev pub log_level_fatal : ℕ
log_level_fatal = 0

abbrev pub log_level_error : ℕ
log_level_error = 1

abbrev pub log_level_warn : ℕ
log_level_warn = 2

abbrev pub log_level_info : ℕ
log_level_info = 3

abbrev pub log_level_debug : ℕ
log_level_debug = 4

abbrev pieces : Message → Pieces
pieces m = record { level = text m.tag; body = text m.body; place = text m.place }

-- The macro of the message's level.
abbrev pub logging : Message → Log → Run Log
logging m log = log_msg log.default_log_stream (pos m.level) true (pieces m) log

-- One macro behind the other.
pub log_all : List Message → Log → Run Log
log_all [] log = ok log
log_all (m ∷ ms) log = and_then (logging m log) (log_all ms)

abbrev message : ℕ → (tag body place : List ℕ) → Message
message level tag body place = record { level = level; tag = tag; body = body; place = place }

-- What the preprocessor and the formats make of the six calls in `main` of logger_test.c.
pub record Texts : Type 0 where
  pub tag : ℕ → List ℕ
  pub body : ℕ → List ℕ
  pub place : ℕ → List ℕ

abbrev pub six : Texts → List Message
six t =
    message log_level_fatal (t.tag 0) (t.body 1) (t.place 1)
    ∷ message log_level_fatal (t.tag 0) (t.body 2) (t.place 2)
    ∷ message log_level_error (t.tag 1) (t.body 3) (t.place 3)
    ∷ message log_level_warn (t.tag 2) (t.body 4) (t.place 4)
    ∷ message log_level_info (t.tag 3) (t.body 5) (t.place 5)
    ∷ message log_level_debug (t.tag 4) (t.body 6) (t.place 6)
    ∷ []

abbrev fclose : Option ℕ → Log → Run Log
fclose none log = undefined
fclose (some fp) log = ok log

-- `main` of logger_test.c, with what `fopen` returns.
pub logger_test : (fp : Option ℕ) → Texts → Log → Run Log
unfolding log_all setup_logger
logger_test fp t log =
    and_then (log_all (six t) (setup_logger fp (pos log_level_debug) log).1) (fclose fp)
