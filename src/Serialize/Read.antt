-- ===== src/Serialize/Read.antt =====
-- common/deserialize.c
pub mod Laws
use c_playground.Prelude.{
  ℕ, ◌≡◌, Bool, true, false, Option, none, some, List, ◌==◌, ◌||◌, if◌then◌else◌,
}
use c_playground.Machine.{ℤ, pos, negsuc, Run, ok, int_add, ltb_ℤ, to_int, signed32, bytes_word}
use c_playground.Serialize.Buffer.{
  World, Handle, Allocator, Cmd, pure, lift, ◌>>=◌, ◌>>◌, is_null, buffer_size, buffer_next, skip,
  copy_out, ser_pos_incr, do_deserialize, Table,
}
use c_playground.Serialize.Write.{sentinel}

-- `SER_BUF_SIZE < ((int)size + SER_BUF_NEXT)`
too_short : (size : ℤ) → Cmd Bool
too_short size = do
  have ← buffer_size
  next ← buffer_next
  need ← lift (int_add size next)
  pure (ltb_ℤ have need)

-- The copy out, and the step past it.
fetch : (size : ℕ) → Cmd (List ℕ)
fetch size = do bytes ← copy_out size; ser_pos_incr (to_int size); pure bytes

-- `deserialize_data` past its first test; `none` leaves `dest` as it was.
read_data : (size : ℕ) → Cmd (Option (List ℕ))
unfolding too_short fetch
read_data size = do
  short ← too_short (to_int size)
  if short then pure none else (do bytes ← fetch size; pure (some bytes))

-- `deserialize_data`
unfoldable pub deserialize_data : (size : ℕ) → Cmd (Option (List ℕ))
unfolding read_data
deserialize_data size w = if (size == 0) || is_null w.handle then ok (none, w) else read_data size w

-- A variable that is overwritten when bytes arrive.
abbrev pub overwrite {ℓ} : {A : Type ℓ} → (List ℕ → A) → A → Option (List ℕ) → A
overwrite read old none = old
overwrite read old (some bytes) = read bytes

-- The end of `deserialize_null`, from the value of `sentinel` on: true stands for -1.
check_sentinel : Allocator → (value : ℕ) → Cmd Bool
check_sentinel heap value =
    if value == sentinel then pure true else (do skip heap (negsuc 3); pure false)

-- `deserialize_null`
unfoldable pub deserialize_null : Allocator → Cmd Bool
unfolding check_sentinel
deserialize_null heap = do
  bytes ← deserialize_data 4
  check_sentinel heap (overwrite bytes_word 0 bytes)

-- `deserialize`
unfoldable pub deserialize : {V : Type 0} → Allocator → Table V → Cmd (Option V)
deserialize heap table = do
  absent ← deserialize_null heap
  if absent then pure none else do_deserialize table

-- `deserialize_int`
unfoldable pub deserialize_int : Cmd ℤ
unfolding too_short fetch
deserialize_int = do
  short ← too_short (pos 4)
  if short then pure (pos 0) else (do bytes ← fetch 4; pure (signed32 (bytes_word bytes)))
