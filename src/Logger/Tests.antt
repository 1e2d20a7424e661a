-- ===== src/Logger/Tests.antt =====
-- Messages of common/logger.c at concrete sizes.
use c_playground.Prelude.{
  ℕ, ◌+◌, ◌≡◌, refl, true, some, List, [], ◌∷◌, ◌++◌, arith, ltb, if◌then◌else◌, take,
}
use c_playground.Machine.{pos, ok, undefined}
use c_playground.Logger.{text, Log, print, log_msg}
use c_playground.Logger.Laws.{log_msg-cases}

abbrev quiet : Log
quiet = record { default_log_stream = some 3; default_log_level = pos 3; lines = [] }

-- "[INFO ] ", "ok", and a place.
abbrev info_tag : List ℕ
info_tag = b'[' ∷ b'I' ∷ b'N' ∷ b'F' ∷ b'O' ∷ b' ' ∷ b']' ∷ b' ' ∷ []

abbrev body : List ℕ
body = b'o' ∷ b'k' ∷ []

abbrev place : List ℕ
place = b'(' ∷ b'a' ∷ b')' ∷ []

log_msg-cases_example :
    log_msg
      (some 3)
      (pos 3)
      true
      (record { level = text info_tag; body = text body; place = text place })
      quiet
    ≡ (if ltb (8 + 2) 8191
        then if ltb (8 + 2 + 3) 8192
          then ok (print (some 3) (info_tag ++ body ++ place) quiet)
          else undefined
        else ok (print (some 3) (info_tag ++ take 8183 body) quiet))
log_msg-cases_example =
    log_msg-cases (some 3) 3 info_tag body place quiet (omega arith) refl refl (omega arith)
