-- ===== src/IntBuffer/Laws.antt =====
-- What copy_data_to_pointer_position.c leaves in its block.
use mathlib.Core.List.{append_assoc, append-nil}
use c_playground.Prelude.{
  ℕ, zero, suc, ◌+◌, ◌*◌, ◌^◌, ◌≤◌, ◌<◌, ◌≡◌, refl, ap, sym, ◌∙◌, true, some, List, [], ◌∷◌, ◌++◌,
  leb, length, drop, length-append, length-drop, arith,
}
use c_playground.Machine.{
  word_bytes, bytes_word, bytes_word-word_bytes, read_at, write_at-append, read_at-append,
}
use c_playground.IntBuffer.{Buf, copy_int, with_printed, behind_round, copy_ints, ran, run_main}

-- The ints from `i` on, and their bytes.
abbrev pub ints : (left i : ℕ) → List ℕ
ints zero i = []
ints (suc left) i = i ∷ ints left (i + 1)

abbrev pub int_bytes : List ℕ → List ℕ
int_bytes [] = []
int_bytes (x ∷ xs) = word_bytes x ++ int_bytes xs

module _ (capacity size : ℕ) where
  -- `ptr` behind `s` in a block that goes on with `t`.
  abbrev at : (s t : List ℕ) → Buf
  at s t = record { cells = s ++ t; ptr = length s; capacity = capacity; size = size }

  copy_int-at :
      (i : ℕ) (s t : List ℕ)
      → i < 2 ^ 32
      → 4 ≤ length t
      → copy_int i (at s t) ≡ some (record { buf = at (s ++ word_bytes i) (drop 4 t); printed = i })
  unfolding copy_int
  copy_int-at i s t small room =
      let fits : leb (length s + 4) (length (s ++ t)) ≡ true = ground (arith, length-append s t) in
      let value : bytes_word (read_at ((s ++ word_bytes i) ++ drop 4 t) (length s) 4) ≡ i =
        ap (λ m. bytes_word (read_at m (length s) 4)) (append_assoc s (word_bytes i) (drop 4 t))
        ∙ ap bytes_word (read_at-append s (word_bytes i) (drop 4 t))
        ∙ bytes_word-word_bytes i small in
      rw (fits, write_at-append s t (word_bytes i), value, length-append s (word_bytes i)) refl

  -- A block with room for the ints that are left holds them afterwards, and they are printed.
  copy_ints-at :
      (left i : ℕ) (s t : List ℕ)
      → i + left ≤ 2 ^ 32
      → length t ≡ 4 * left
      → copy_ints left i (at s t)
        ≡ some (record { buf = at (s ++ int_bytes (ints left i)) []; printed = ints left i })
  unfolding copy_ints
  copy_ints-at zero i s [] small room =
      ap (λ b. some (record { buf = at b []; printed = [] })) (sym (append-nil s))
  copy_ints-at zero i s (x ∷ t) small room = absurd (omega arith)
  copy_ints-at (suc left) i s t small room =
      let rest =
        copy_ints-at left (i + 1) (s ++ word_bytes i) (drop 4 t) (omega arith)
          (omega (arith, room, length-drop 4 t)) in
      ap (λ r. behind_round r (copy_ints left (i + 1)))
        (copy_int-at i s t (omega arith) (omega (arith, room)))
      ∙ ap (with_printed i) rest
      ∙ ap (λ b. some (record { buf = at b []; printed = ints (suc left) i }))
          (append_assoc s (word_bytes i) (int_bytes (ints left (i + 1))))

-- With a block of the size asked for: no round of the loop writes outside of it, whatever it held; at
-- the end it holds the ints from 0 to 9 one behind the other, `ptr` is at its end, and the ten ints
-- were printed as they were copied.
pub run_main-copies :
    (cells : List ℕ)
    → length cells ≡ 40
    → run_main true (some cells)
      ≡ ran (
          some (record {
            buf = record { cells = int_bytes (ints 10 0); ptr = 40; capacity = 40; size = 0 };
            printed = ints 10 0;
          }))
unfolding run_main
run_main-copies cells full = ap ran (
    copy_ints-at 40 0 10 0 [] cells (omega arith) full
    ∙ ap
        (λ b. some (record {
          buf = record { cells = b; ptr = 40; capacity = 40; size = 0 };
          printed = ints 10 0;
        }))
        (append-nil (int_bytes (ints 10 0))))
