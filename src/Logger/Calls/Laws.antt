-- ===== src/Logger/Calls/Laws.antt =====
-- Which messages a row of logging macros writes.
use mathlib.Core.List.{append_assoc, reverse, reverse-cons}
use c_playground.Prelude.{
  ℕ, ◌+◌, ◌≤◌, ◌<◌, ◌≡◌, refl, ap, ◌∙◌, Bool, true, false, Option, none, some, List, [], ◌∷◌, ◌++◌,
  map, arith, length, if◌then◌else◌, lt→ltb, Bool-cases, inl, inr,
}
use c_playground.Machine.{ℤ, pos, ltb_ℤ, ok, undefined, and_then}
use c_playground.Logger.{Log, log_msg, setup_logger}
use c_playground.Logger.Laws.{log_msg-cases}
use c_playground.Logger.Calls.{Message, logging, log_all, Texts, six, logger_test}

-- The tag is that of a level, and the whole message fits into the buffer.
pub record IsShort (m : Message) : Type 0 where
  pub level : m.level ≤ 4
  pub tag : length m.tag ≡ 8
  pub fits : 8 + length m.body + length m.place < 8191

abbrev pub AllShort : List Message → Type 0
AllShort [] = Unit
AllShort (m ∷ ms) = IsShort m × AllShort ms

-- The messages whose level is at most the logger's.
abbrev pub passing : ℤ → List Message → List Message
passing level [] = []
passing level (m ∷ ms) =
    if ltb_ℤ level (pos m.level) then passing level ms else m ∷ passing level ms

-- A message as it is written.
abbrev pub line : Option ℕ → Message → Option ℕ × List ℕ
line zc m = (zc, m.tag ++ m.body ++ m.place)

abbrev is_some : Option ℕ → Bool
is_some none = false
is_some (some _) = true

logging-on :
    (m : Message) (log : Log)
    → IsShort m
    → ltb_ℤ log.default_log_level (pos m.level) ≡ false
    → logging m log ≡ ok (record log { lines = line log.default_log_stream m ∷ log.lines })
logging-on m log short on =
    log_msg-cases log.default_log_stream m.level m.tag m.body m.place log short.level on short.tag
      (omega (arith, short.fits))
    ∙ rw
        (
          lt→ltb (8 + length m.body) 8191 (omega (arith, short.fits)),
          lt→ltb (8 + length m.body + length m.place) 8192 (omega (arith, short.fits)),
        )
        refl

logging-off :
    (m : Message) (log : Log)
    → ltb_ℤ log.default_log_level (pos m.level) ≡ true
    → logging m log ≡ ok log
unfolding log_msg
logging-off m log off = rw off refl

module _ (zc : Option ℕ) (level : ℤ) where
  -- What a row of messages leaves behind.
  abbrev after : List Message → List (Option ℕ × List ℕ) → Log
  after ms lines = record {
    default_log_stream = zc;
    default_log_level = level;
    lines = reverse (map (line zc) (passing level ms)) ++ lines;
  }

  next_line :
      (m : Message) (ms : List Message) (lines : List (Option ℕ × List ℕ))
      → ltb_ℤ level (pos m.level) ≡ false
      → after ms (line zc m ∷ lines) ≡ after (m ∷ ms) lines
  next_line m ms lines on =
      let rest = map (line zc) (passing level ms) in
      rw (on, reverse-cons (line zc m) rest, append_assoc (reverse rest) (line zc m ∷ []) lines)
        refl

  -- With short messages, a row of the macros is defined, and has written exactly those whose level is at
  -- most the logger's, each whole and in their order, to the logger's stream.
  pub log_all-passing :
      (ms : List Message) (lines : List (Option ℕ × List ℕ))
      → AllShort ms
      → log_all ms (record { default_log_stream = zc; default_log_level = level; lines = lines })
        ≡ ok (record {
          default_log_stream = zc;
          default_log_level = level;
          lines = reverse (map (line zc) (passing level ms)) ++ lines;
        })
  unfolding log_all
  log_all-passing [] lines short = refl
  log_all-passing (m ∷ ms) lines (short, rest) = elim (Bool-cases (ltb_ℤ level (pos m.level))) [
    | inl off ↦
        ap (λ r. and_then r (log_all ms)) (logging-off m _ off)
        ∙ log_all-passing ms lines rest
        ∙ rw off refl
    | inr on ↦
        ap (λ r. and_then r (log_all ms)) (logging-on m _ short on)
        ∙ log_all-passing ms (line zc m ∷ lines) rest
        ∙ ap ok (next_line m ms lines on)
  ]

-- `main` of logger_test.c writes its six messages to its file if `fopen` succeeds; if it fails, they go
-- to stderr and `fclose(NULL)` is undefined.
pub logger_test-cases :
    (fp : Option ℕ) (t : Texts) (log : Log)
    → AllShort (six t)
    → logger_test fp t log ≡ (
        if is_some fp
        then ok (record {
          default_log_stream = fp;
          default_log_level = pos 4;
          lines = reverse (map (line fp) (six t)) ++ log.lines;
        })
        else undefined)
unfolding logger_test setup_logger
logger_test-cases none t log short =
    ap (λ r. and_then r (λ l. undefined)) (log_all-passing none (pos 4) (six t) log.lines short)
logger_test-cases (some fp) t log short =
    ap (λ r. and_then r ok) (log_all-passing (some fp) (pos 4) (six t) log.lines short)
