-- ===== src/Serialize/Read/Laws.antt =====
-- What the readers of deserialize.c return, and where they leave the position.
use c_playground.Prelude.{
  ℕ, ◌+◌, ◌-◌, ◌^◌, ◌≤◌, ◌<◌, ◌≡◌, ◌≢◌, refl, ap, ◌∙◌, true, false, none, some, List, arith, length,
  ltb, ◌==◌, ◌||◌, if◌then◌else◌, ℕ_discrete, dec_lt, lt→ltb,
}
use c_playground.Machine.{pos, negsuc, to_int, ok, read_at, signed32, bytes_word}
use c_playground.Serialize.Buffer.{
  Allocator, World, buffer_size, buffer_next, copy_out, ser_pos_incr, skip,
}
use c_playground.Serialize.Buffer.Layout.{Frame, at, bind-ok, then-ok, skip-back}
use c_playground.Serialize.Write.{sentinel}
use c_playground.Serialize.Read.{
  too_short, fetch, read_data, deserialize_data, deserialize_null, deserialize_int, check_sentinel,
}

module _ (f : Frame) (calls : ℕ) (memory : List ℕ) (k n : ℕ) (whole : length memory < 2 ^ 31) where
  too_short-at :
      k + n < 2 ^ 31
      → too_short (to_int n) (at f calls memory k)
        ≡ ok (ltb (length memory) (n + k), at f calls memory k)
  unfolding too_short buffer_size buffer_next
  too_short-at need = ground arith

  fetch-at :
      k + n ≤ length memory
      → fetch n (at f calls memory k) ≡ ok (read_at memory k n, at f calls memory (k + n))
  unfolding fetch copy_out ser_pos_incr
  fetch-at room = ground arith

  read_data-short :
      k + n < 2 ^ 31
      → length memory < n + k
      → read_data n (at f calls memory k) ≡ ok (none, at f calls memory k)
  unfolding read_data
  read_data-short need short =
      bind-ok (too_short (to_int n)) _ (too_short-at need) (rw (lt→ltb _ _ short))

  read_data-enough :
      k + n < 2 ^ 31
      → n + k ≤ length memory
      → read_data n (at f calls memory k)
        ≡ ok (some (read_at memory k n), at f calls memory (k + n))
  unfolding read_data
  read_data-enough need room =
      let enough : ltb (length memory) (n + k) ≡ false = ground arith in
      bind-ok (too_short (to_int n)) _ (too_short-at need)
        (rw enough (bind-ok (fetch n) _ (fetch-at (omega arith)) refl))

  asks : n ≢ 0 → deserialize_data n (at f calls memory k) ≡ read_data n (at f calls memory k)
  unfolding deserialize_data
  asks asked = ground arith

  -- `deserialize_data` at a position inside the block: it copies out the next `n` bytes and moves
  -- behind them, or, if fewer are left or none are asked for, does nothing at all.
  pub deserialize_data-cases :
      k + n < 2 ^ 31
      → deserialize_data n (at f calls memory k) ≡ (
          if (n == 0) || ltb (length memory) (n + k)
          then ok (none, at f calls memory k)
          else ok (some (read_at memory k n), at f calls memory (k + n)))
  unfolding deserialize_data
  deserialize_data-cases need = elim (ℕ_discrete n 0) [
    | yes e ↦ ground arith
    | no asked ↦ elim (dec_lt (length memory) (n + k)) [
      | yes short ↦ ground (arith, read_data-short need short)
      | no room ↦ ground (arith, read_data-enough need (omega arith))
    ]
  ]

check_sentinel-equal :
    (heap : Allocator) (w : World) → check_sentinel heap sentinel w ≡ ok (true, w)
unfolding check_sentinel
check_sentinel-equal heap w = refl

check_sentinel-other :
    (heap : Allocator) (value : ℕ) (w : World) {w' : World}
    → value ≢ sentinel
    → skip heap (negsuc 3) w ≡ ok (tt, w')
    → check_sentinel heap value w ≡ ok (false, w')
unfolding check_sentinel
check_sentinel-other heap value w other e =
    let no : (value == sentinel) ≡ false = ground arith in
    rw no (then-ok (skip heap (negsuc 3)) _ e refl)

-- The three ends of the sentinel check at a position inside the block.
pub deserialize_null-branches :
    (heap : Allocator) (f : Frame) (calls : ℕ) (memory : List ℕ) (k : ℕ)
    → length memory < 2 ^ 31
    → k + 4 < 2 ^ 31
    → k ≤ length memory
    → 4 ≤ length memory
    → ((k + 4 ≤ length memory)
        → bytes_word (read_at memory k 4) ≡ sentinel
        → deserialize_null heap (at f calls memory k) ≡ ok (true, at f calls memory (k + 4)))
      × ((k + 4 ≤ length memory)
          → bytes_word (read_at memory k 4) ≢ sentinel
          → deserialize_null heap (at f calls memory k) ≡ ok (false, at f calls memory k))
      × ((length memory < k + 4)
          → 4 ≤ k
          → deserialize_null heap (at f calls memory k) ≡ ok (false, at f calls memory (k - 4)))
unfolding deserialize_null
deserialize_null-branches heap f calls memory k small need inside four = (
  λ room e. bind-ok (deserialize_data 4) _ (read room) (rw e (check_sentinel-equal heap _)),
  λ room other.
      bind-ok (deserialize_data 4) _ (read room) (check_sentinel-other heap _ _ other (back room)),
  λ short far. bind-ok (deserialize_data 4) _ (none_read short) (
      check_sentinel-other heap 0 _ (omega arith)
        (skip-back heap f calls memory k (omega arith) inside far)),
)
  where
    read :
        k + 4 ≤ length memory
        → deserialize_data 4 (at f calls memory k)
          ≡ ok (some (read_at memory k 4), at f calls memory (k + 4))
    read room =
        asks f calls memory k 4 (omega arith) (omega arith)
        ∙ read_data-enough f calls memory k 4 (omega arith) (omega arith) (omega arith)

    none_read :
        length memory < k + 4
        → deserialize_data 4 (at f calls memory k) ≡ ok (none, at f calls memory k)
    none_read short =
        asks f calls memory k 4 (omega arith) (omega arith)
        ∙ read_data-short f calls memory k 4 (omega arith) (omega arith) (omega arith)

    back :
        k + 4 ≤ length memory
        → skip heap (negsuc 3) (at f calls memory (k + 4)) ≡ ok (tt, at f calls memory k)
    back room =
        skip-back heap f calls memory (k + 4) (omega arith) room (omega arith)
        ∙ ap (λ j. ok (tt, at f calls memory j)) (omega arith)

-- The sentinel check at a position inside a block of at least eight bytes. Four bytes that are the
-- sentinel are consumed; four others are left to be read; with fewer than four left the position
-- moves BACK by four.
pub deserialize_null-cases :
    (heap : Allocator) (f : Frame) (calls : ℕ) (memory : List ℕ) (k : ℕ)
    → length memory < 2 ^ 31
    → k + 4 < 2 ^ 31
    → k ≤ length memory
    → 8 ≤ length memory
    → deserialize_null heap (at f calls memory k) ≡ (
        if ltb (length memory) (4 + k)
        then ok (false, at f calls memory (k - 4))
        else if bytes_word (read_at memory k 4) == sentinel
        then ok (true, at f calls memory (k + 4))
        else ok (false, at f calls memory k))
deserialize_null-cases heap f calls memory k small need inside eight =
    let branches =
      deserialize_null-branches heap f calls memory k small need inside (omega arith) in
    elim (dec_lt (length memory) (4 + k)) [
      | yes short ↦
          rw (lt→ltb _ _ short) (branches.2 (omega (arith, short)) (omega (arith, short, eight)))
      | no enough ↦
          let room : k + 4 ≤ length memory = omega (arith, enough) in
          let wide : ltb (length memory) (4 + k) ≡ false = ground arith in
          elim (ℕ_discrete (bytes_word (read_at memory k 4)) sentinel) [
            | yes same ↦
                let test : (bytes_word (read_at memory k 4) == sentinel) ≡ true = ground arith in
                rw (wide, test) (branches.0 room same)
            | no other ↦
                let test : (bytes_word (read_at memory k 4) == sentinel) ≡ false = ground arith in
                rw (wide, test) (branches.1 room other)
          ]
    ]

-- `deserialize_data` with enough left.
pub deserialize_data-read :
    (f : Frame) (calls : ℕ) (memory : List ℕ) (k n : ℕ)
    → length memory < 2 ^ 31
    → k + n ≤ length memory
    → 0 < n
    → deserialize_data n (at f calls memory k)
      ≡ ok (some (read_at memory k n), at f calls memory (k + n))
deserialize_data-read f calls memory k n whole room asked =
    asks f calls memory k n whole (omega arith)
    ∙ read_data-enough f calls memory k n whole (omega arith) (omega arith)

-- `deserialize_int`: the word at the position, or 0 and no step with fewer than four bytes left.
pub deserialize_int-cases :
    (f : Frame) (calls : ℕ) (memory : List ℕ) (k : ℕ)
    → length memory < 2 ^ 31
    → k + 4 < 2 ^ 31
    → deserialize_int (at f calls memory k) ≡ (
        if ltb (length memory) (4 + k)
        then ok (pos 0, at f calls memory k)
        else ok (signed32 (bytes_word (read_at memory k 4)), at f calls memory (k + 4)))
unfolding deserialize_int
deserialize_int-cases f calls memory k whole need =
    bind-ok (too_short (pos 4)) _ (too_short-at f calls memory k 4 whole need)
      (elim (dec_lt (length memory) (4 + k)) [
        | yes short ↦ rw (lt→ltb _ _ short)
        | no enough ↦
            let room : ltb (length memory) (4 + k) ≡ false = ground arith in
            rw room (bind-ok (fetch 4) _ (fetch-at f calls memory k 4 whole (omega arith)) refl)
      ])

-- `deserialize_int` with a word left.
pub deserialize_int-read :
    (f : Frame) (calls : ℕ) (memory : List ℕ) (k : ℕ)
    → length memory < 2 ^ 31
    → k + 4 ≤ length memory
    → deserialize_int (at f calls memory k)
      ≡ ok (signed32 (bytes_word (read_at memory k 4)), at f calls memory (k + 4))
deserialize_int-read f calls memory k whole room =
    let enough : ltb (length memory) (4 + k) ≡ false = ground arith in
    deserialize_int-cases f calls memory k whole (omega arith) ∙ rw enough refl
