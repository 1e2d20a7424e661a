-- ===== src/Logger/Calls/Tests.antt =====
-- Two messages, one of them above the logger's level.
use c_playground.Prelude.{◌≡◌, refl, some, [], ◌∷◌, ◌++◌, arith}
use c_playground.Machine.{pos, ok}
use c_playground.Logger.Calls.{Message, log_all}
use c_playground.Logger.Calls.Laws.{AllShort, log_all-passing}

abbrev warning : Message
warning = record {
  level = 2;
  tag = b'[' ∷ b'W' ∷ b'A' ∷ b'R' ∷ b'N' ∷ b' ' ∷ b']' ∷ b' ' ∷ [];
  body = b'o' ∷ b'k' ∷ [];
  place = b'(' ∷ b')' ∷ [];
}

abbrev detail : Message
detail = record {
  level = 4;
  tag = b'[' ∷ b'D' ∷ b'E' ∷ b'B' ∷ b'U' ∷ b'G' ∷ b']' ∷ b' ' ∷ [];
  body = b'x' ∷ [];
  place = [];
}

both-AllShort : AllShort (warning ∷ detail ∷ [])
both-AllShort = (
  record { level = omega arith; tag = refl; fits = omega arith },
  (record { level = omega arith; tag = refl; fits = omega arith }, tt),
)

log_all-passing_example :
    log_all
      (warning ∷ detail ∷ [])
      (record { default_log_stream = some 3; default_log_level = pos 3; lines = [] })
    ≡ ok (record {
      default_log_stream = some 3;
      default_log_level = pos 3;
      lines = (some 3, warning.tag ++ warning.body ++ warning.place) ∷ [];
    })
log_all-passing_example = log_all-passing (some 3) (pos 3) (warning ∷ detail ∷ []) [] both-AllShort
