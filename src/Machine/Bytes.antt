-- ===== src/Machine/Bytes.antt =====
-- Memory as a list of bytes: `memcpy` into and out of a block, fresh cells, and 32-bit words in
-- little-endian order.
use mathlib.Core.List.{append_assoc}
use c_playground.Prelude.{
  ℕ, zero, suc, ◌+◌, ◌*◌, ◌/◌, ◌%◌, ◌^◌, ◌≤◌, ◌<◌, ◌≡◌, refl, ap, sym, List, [], ◌∷◌, ◌++◌, arith,
  length, take, drop, length-append, length-take, length-drop,
}

-- `memcpy(block + offset, bytes, length bytes)`
unfoldable pub write_at : List ℕ → ℕ → List ℕ → List ℕ
write_at block offset bytes = take offset block ++ (bytes ++ drop (offset + length bytes) block)

-- `memcpy(…, block + offset, n)`
abbrev pub read_at : List ℕ → ℕ → ℕ → List ℕ
read_at block offset n = take n (drop offset block)

-- `n` bytes of indeterminate content, from position `i`.
unfoldable pub fresh : (ℕ → ℕ) → ℕ → ℕ → List ℕ
fresh byte i zero = []
fresh byte i (suc n) = byte i ∷ fresh byte (i + 1) n

pub length-fresh : (byte : ℕ → ℕ) (i n : ℕ) → length (fresh byte i n) ≡ n
unfolding fresh
length-fresh byte i zero = refl
length-fresh byte i (suc n) = ap suc (length-fresh byte (i + 1) n)

-- The four bytes of a word, least significant first, and the word they stand for.
abbrev pub word_bytes : ℕ → List ℕ
word_bytes x = (x % 256) ∷ (x / 256 % 256) ∷ (x / 65536 % 256) ∷ (x / 16777216 % 256) ∷ []

abbrev pub bytes_word : List ℕ → ℕ
bytes_word [] = 0
bytes_word (b ∷ bs) = b + 256 * bytes_word bs

pub bytes_word-word_bytes : (x : ℕ) → x < 2 ^ 32 → bytes_word (word_bytes x) ≡ x
bytes_word-word_bytes x h = omega arith

-- The first bytes of two blocks one after the other.
pub take-append {ℓ} : {A : Type ℓ} (xs ys : List A) → take (length xs) (xs ++ ys) ≡ xs
take-append [] ys = refl
take-append (x ∷ xs) ys = ap (λ zs. x ∷ zs) (take-append xs ys)

pub drop-append {ℓ} : {A : Type ℓ} (xs ys : List A) → drop (length xs) (xs ++ ys) ≡ ys
drop-append [] ys = refl
drop-append (x ∷ xs) ys = drop-append xs ys

pub length-write_at :
    (block : List ℕ) (offset : ℕ) (bytes : List ℕ)
    → offset + length bytes ≤ length block
    → length (write_at block offset bytes) ≡ length block
unfolding write_at
length-write_at block offset bytes h = omega (
  arith,
  length-append (take offset block) (bytes ++ drop (offset + length bytes) block),
  length-append bytes (drop (offset + length bytes) block),
  length-take offset block,
  length-drop (offset + length bytes) block,
)

drop-append_add : (n : ℕ) (xs ys : List ℕ) → drop (length xs + n) (xs ++ ys) ≡ drop n ys
drop-append_add n [] ys = ap (λ k. drop k ys) (omega arith)
drop-append_add n (x ∷ xs) ys =
    let e : suc (length xs) + n ≡ suc (length xs + n) = omega arith in
    rw e (drop-append_add n xs ys)

-- A write behind `s` lands there, over what stood there before.
pub write_at-append :
    (s t bytes : List ℕ)
    → write_at (s ++ t) (length s) bytes ≡ (s ++ bytes) ++ drop (length bytes) t
unfolding write_at
write_at-append s t bytes =
    rw (take-append s t, drop-append_add (length bytes) s t) (sym (append_assoc s bytes _))

-- A read behind `s` finds what stands there.
pub read_at-append :
    (s bytes t : List ℕ) → read_at (s ++ (bytes ++ t)) (length s) (length bytes) ≡ bytes
read_at-append s bytes t = rw (drop-append s (bytes ++ t)) (take-append bytes t)
