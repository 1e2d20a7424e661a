-- ===== src/Logger.antt =====
-- common/logger.c: the level filter and the message buffer of `MSG_LEN` characters.
pub mod Laws
pub mod Calls
mod Tests
use c_playground.Prelude.{
  ℕ, ◌+◌, ◌-◌, ◌≡◌, Bool, true, false, Option, none, some, List, [], ◌∷◌, ◌++◌, ltb, leb,
  if◌then◌else◌, length, take,
}
use c_playground.Machine.{ℤ, pos, negsuc, ltb_ℤ, Run, ok, undefined, and_then, int_add}

abbrev pub msg_len : ℕ
msg_len = 8192

-- What a call of `snprintf` formats: an output error, or a text of any length.
pub data Piece : Type 0 where
  failed : Piece
  text : List ℕ → Piece

-- The three pieces of a message: level, body, and place in the source.
pub record Pieces : Type 0 where
  pub level : Piece
  pub body : Piece
  pub place : Piece

-- The globals, and the lines written so far with their stream; `none` is stderr.
pub record Log : Type 0 where
  pub default_log_stream : Option ℕ
  pub default_log_level : ℤ
  pub lines : List (Option ℕ × List ℕ)

-- `setup_logger`
unfoldable pub setup_logger : (fd : Option ℕ) (log_level : ℤ) → Log → ℤ × Log
setup_logger fd log_level log =
    (pos 0, record log { default_log_stream = fd; default_log_level = log_level })

-- `snprintf(msg + written, MSG_LEN - written, …)`, and what it returns. `msg` is the string so far; a
-- negative difference is a huge `size_t`.
append : (msg : List ℕ) (written : ℤ) → Piece → Run (List ℕ × ℤ)
append msg (negsuc n) piece = undefined
append msg (pos w) failed = ok (msg, negsuc 0)
append msg (pos w) (text t) =
    if ltb msg_len w then undefined else ok (take w msg ++ take (msg_len - w - 1) t, pos (length t))

-- `logging_to_file` or `logging_to_stderr`
abbrev pub print : (zc : Option ℕ) (msg : List ℕ) → Log → Log
print zc msg log = record log { lines = (zc, msg) ∷ log.lines }

-- `msg[written] = '\0'` and the output.
terminate : (zc : Option ℕ) (msg : List ℕ) (written : ℤ) → Log → Run Log
terminate zc msg (negsuc n) log = undefined
terminate zc msg (pos w) log = if ltb w msg_len then ok (print zc (take w msg) log) else undefined

-- A piece is written and counted; a negative count ends the call.
write_piece : (msg : List ℕ) (written : ℤ) → Piece → Log → (List ℕ → ℤ → Run Log) → Run Log
unfolding append
write_piece msg written piece log next = and_then (append msg written piece) λ out.
    and_then (int_add written out.1) λ sum. if ltb_ℤ sum (pos 0) then ok log else next out.0 sum

-- From the test for a full buffer on; `site` says that `file`, `line` and `func` are given.
add_place : (zc : Option ℕ) (site : Bool) → Piece → Log → List ℕ → ℤ → Run Log
unfolding write_piece terminate
add_place zc site place log msg written =
    if ltb_ℤ written (pos (msg_len - 1))
    then if site
      then write_piece msg written place log (λ msg' sum. terminate zc msg' sum log)
      else terminate zc msg written log
    else ok (print zc msg log)

-- `do_log_msg`; a level outside `log_level_string` is undefined.
pub do_log_msg : (zc : Option ℕ) (level : ℤ) (site : Bool) → Pieces → Log → Run Log
unfolding write_piece add_place
do_log_msg zc level site pieces log =
    if ltb_ℤ level (pos 0)
    then undefined
    else if ltb_ℤ (pos 4) level
    then undefined
    else write_piece [] (pos 0) pieces.level log
        λ msg sum. write_piece msg sum pieces.body log (add_place zc site pieces.place log)

-- `log_msg`
pub log_msg : (zc : Option ℕ) (level : ℤ) (site : Bool) → Pieces → Log → Run Log
unfolding do_log_msg
log_msg zc level site pieces log =
    if ltb_ℤ log.default_log_level level then ok log else do_log_msg zc level site pieces log
