-- ===== src/Serialize/Write.antt =====
-- common/serialize.c
pub mod Laws
pub mod Refusal
use c_playground.Prelude.{
  ℕ, zero, suc, ◌≡◌, Bool, true, false, Option, none, some, List, ltb, if◌then◌else◌,
}
use c_playground.Machine.{
  ℤ, pos, Run, ok, undefined, out_of_fuel, int_sub, to_size, to_int, pattern32, word_bytes,
}
use c_playground.Serialize.Buffer.{
  World, Handle, Allocator, Cmd, pure, lift, ◌>>=◌, ◌>>◌, is_null, buffer_size, buffer_next, resize,
  grow_rounds, copy_in, ser_pos_incr, do_serialize, Table,
}

-- `SER_BUF_SIZE - SER_BUF_NEXT`, an `int` stored as a `size_t`.
pub available : Cmd ℕ
available = do
  size ← buffer_size
  next ← buffer_next
  left ← lift (int_sub size next)
  pure (to_size left)

-- The loop of `serialize_data`; the result is `is_resized`.
pub grow : Allocator → (fuel : ℕ) → (size room : ℕ) → (is_resized : Bool) → Cmd Bool
grow heap zero size room is_resized = λ _. out_of_fuel
grow heap (suc fuel) size room is_resized =
    if ltb room size
    then (do resize heap 2; again ← available; grow heap fuel size again true)
    else pure is_resized

-- The copy at the position, and the step past it.
store : (bytes : List ℕ) (size : ℕ) → Cmd (Unit {0})
store bytes size = do copy_in bytes size; ser_pos_incr (to_int size)

-- `serialize_data` past its first test.
write_data : Allocator → (bytes : List ℕ) (size : ℕ) → Cmd (Unit {0})
unfolding available grow store
write_data heap bytes size = do
  room ← available
  is_resized ← grow heap grow_rounds size room false
  if is_resized then store bytes size else store bytes size

-- `serialize_data`: nothing is written through NULL.
unfoldable pub serialize_data : Allocator → (bytes : List ℕ) (size : ℕ) → Cmd (Unit {0})
unfolding write_data
serialize_data heap bytes size w =
    if is_null w.handle then ok (tt, w) else write_data heap bytes size w

abbrev pub sentinel : ℕ
sentinel = 0xffff_ffff

-- `serialize_null`
unfoldable pub serialize_null : Allocator → Cmd (Unit {0})
serialize_null heap = serialize_data heap (word_bytes sentinel) 4

-- `serialize`
unfoldable pub serialize : {V : Type 0} → Allocator → Table V → Option V → Cmd (Unit {0})
serialize heap table none = serialize_data heap (word_bytes sentinel) 4
serialize heap table (some v) = do_serialize table (some v)

-- `serialize_list`, which only calls its argument.
unfoldable pub serialize_list : {L : Type 0} → L → (ser_list : L → Cmd (Unit {0})) → Cmd (Unit {0})
serialize_list list ser_list = ser_list list

-- `serialize_int`
unfoldable pub serialize_int : Allocator → ℤ → Cmd (Unit {0})
serialize_int heap x = serialize_data heap (word_bytes (pattern32 x)) 4
