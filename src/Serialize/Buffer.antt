-- ===== src/Serialize/Buffer.antt =====
-- common/serialized_buffer.c. A command runs on the buffer behind one `ser_buff_t`.
pub mod Layout
use c_playground.Prelude.{
  ℕ, zero, suc, ◌+◌, ◌-◌, ◌≤◌, ◌≡◌, Bool, true, false, Option, none, some, List, ◌++◌, leb, ltb,
  ◌==◌, if◌then◌else◌, length, take, replicate,
}
use c_playground.Machine.{
  ℤ, pos, negsuc, Run, ok, undefined, out_of_fuel, int_add, int_sub, int_scale, ltb_ℤ, to_size,
  fresh, write_at, read_at,
}

-- `_ser_buff_t`. `memory` is the block at `b`, whose true extent `size` only reports; a function
-- pointer is an entry of a table of functions, and `none` is NULL.
pub record SerBuff : Type 0 where
  pub memory : List ℕ
  pub size : ℤ
  pub next : ℤ
  pub ser_func : Option ℕ
  pub dser_func : Option ℕ

-- What a `ser_buff_t` points to.
pub data Handle : Type 0 where
  null : Handle
  freed : Handle
  live : SerBuff → Handle

-- The buffer, and the number of calls of the allocator so far.
pub record World : Type 0 where
  pub handle : Handle
  pub calls : ℕ

-- The allocator: whether it serves its n-th call, and what the n-th call leaves in new cells.
pub record Allocator : Type 0 where
  pub grants : ℕ → Bool
  pub garbage : ℕ → ℕ → ℕ

abbrev pub Cmd : Type 0 → Type 0
Cmd A = World → Run (A × World)

abbrev pub pure : {A : Type 0} → A → Cmd A
pure a w = ok (a, w)

abbrev pub lift : {A : Type 0} → Run A → Cmd A
lift (ok a) w = ok (a, w)
lift undefined w = undefined
lift out_of_fuel w = out_of_fuel

abbrev pub run_then : {A B : Type 0} → Run (A × World) → (A → Cmd B) → Run (B × World)
run_then (ok (a, w)) f = f a w
run_then undefined f = undefined
run_then out_of_fuel f = out_of_fuel

infixl 5 ◌>>=◌ ◌>>◌
abbrev pub ◌>>=◌ : {A B : Type 0} → Cmd A → (A → Cmd B) → Cmd B
◌>>=◌ m f w = run_then (m w) f

abbrev pub ◌>>◌ : {B : Type 0} → Cmd (Unit {0}) → Cmd B → Cmd B
m >> n = m >>= λ _. n

-- `buf->…`: undefined through NULL and after `free`.
abbrev pub deref : Handle → Cmd SerBuff
deref null w = undefined
deref freed w = undefined
deref (live b) w = ok (b, w)

abbrev pub get : Cmd SerBuff
get w = deref w.handle w

abbrev pub put : SerBuff → Cmd (Unit {0})
put b w = ok (tt, record w { handle = live b })

-- Whether `_buf` is NULL.
abbrev pub is_null : Handle → Bool
is_null null = true
is_null _ = false

abbrev default_size : ℕ
default_size = 512

-- `serialized_buffer_create`: two `calloc` calls, the first undone when the second fails.
unfoldable pub create : Allocator → (fptr dfptr : Option ℕ) → Cmd (Unit {0})
create heap fptr dfptr w =
    if heap.grants w.calls
    then (if heap.grants (w.calls + 1)
        then ok (
          tt,
          record {
            handle = live (record {
              memory = replicate default_size 0;
              size = pos default_size;
              next = pos 0;
              ser_func = fptr;
              dser_func = dfptr;
            });
            calls = w.calls + 2;
          },
        )
        else ok (tt, record { handle = null; calls = w.calls + 2 }))
    else ok (tt, record { handle = null; calls = w.calls + 1 })

destroy_handle : Handle → Cmd (Unit {0})
destroy_handle null w = ok (tt, w)
destroy_handle freed w = undefined
destroy_handle (live b) w = ok (tt, record w { handle = freed })

-- `serialized_buffer_destroy`
unfoldable pub destroy : Cmd (Unit {0})
unfolding destroy_handle
destroy w = destroy_handle w.handle w

-- `serialized_buffer_size`, `serialized_buffer_next`
unfoldable pub buffer_size : Cmd ℤ
buffer_size = do b ← get; pure b.size

unfoldable pub buffer_next : Cmd ℤ
buffer_next = do b ← get; pure b.next

-- `realloc` to `n` bytes: a refusal leaves the old block; `n = 0` is not defined.
pub reallocate : Allocator → List ℕ → ℕ → Cmd (List ℕ)
reallocate heap block n w =
    if n == 0
    then undefined
    else if heap.grants w.calls
    then ok (
      take n block ++ fresh (heap.garbage w.calls) (length block) (n - length block),
      record w { calls = w.calls + 1 },
    )
    else ok (block, record w { calls = w.calls + 1 })

-- `serialized_buffer_resize`: `size` changes before the allocator is asked.
unfoldable pub resize : Allocator → (ratio : ℕ) → Cmd (Unit {0})
unfolding reallocate
resize heap ratio = do
  b ← get
  size ← lift (int_scale b.size ratio)
  put (record b { size = size })
  memory ← reallocate heap b.memory (to_size size)
  put (record b { size = size; memory = memory })

-- The loop of `serialized_buffer_skip`, and what is left of the buffer as an `int`.
abbrev int_available : Cmd ℤ
int_available = do b ← get; lift (int_sub b.size b.next)

skip_grow : Allocator → (fuel : ℕ) → (size available : ℤ) → Cmd (Unit {0})
skip_grow heap zero size available = λ _. out_of_fuel
skip_grow heap (suc fuel) size available =
    if ltb_ℤ available size
    then (do resize heap 2; again ← int_available; skip_grow heap fuel size again)
    else pure tt

-- Rounds that are enough for a size to double past any request, or past `int`.
abbrev pub grow_rounds : ℕ
grow_rounds = 64

abbrev advance : ℤ → Cmd (Unit {0})
advance size = do b ← get; next ← lift (int_add b.next size); put (record b { next = next })

-- `serialized_buffer_skip`
unfoldable pub skip : Allocator → (size : ℤ) → Cmd (Unit {0})
unfolding skip_grow
skip heap size = do
  available ← int_available
  if ltb_ℤ available size
      then (do skip_grow heap grow_rounds size available; advance size)
      else advance size

-- The offset of a position from the block's start, undefined outside the block.
abbrev offset_in : List ℕ → ℤ → Run ℕ
offset_in block (pos n) = if leb n (length block) then ok n else undefined
offset_in block (negsuc n) = undefined

-- `serialized_buffer_start_pos`, as the bytes that can be read from there.
unfoldable pub start_pos : Cmd (List ℕ)
start_pos = do b ← get; pure b.memory

-- `serialized_buffer_ser_pos`, as an offset.
unfoldable pub ser_pos : Cmd ℕ
ser_pos = do b ← get; lift (offset_in b.memory b.next)

-- `serialized_buffer_ser_pos_incr`
unfoldable pub ser_pos_incr : (size : ℤ) → Cmd (Unit {0})
ser_pos_incr size = advance size

-- `serialized_buffer_reset`
unfoldable pub reset : Cmd (Unit {0})
reset = do b ← get; put (record b { next = pos 0 })

-- `serialized_buffer_dump`, of which only the reads of the fields are modelled.
unfoldable pub dump : Cmd (Unit {0})
dump = do b ← get; pure tt

-- `memcpy(SER_BUF_POS, data, size)`: undefined past the end of either block.
unfoldable pub copy_in : (bytes : List ℕ) (n : ℕ) → Cmd (Unit {0})
unfolding ser_pos
copy_in bytes n = do
  at ← ser_pos
  b ← get
  if leb n (length bytes)
      then (if leb (at + n) (length b.memory)
          then put (record b { memory = write_at b.memory at (take n bytes) })
          else λ _. undefined)
      else λ _. undefined

-- `memcpy(dest, SER_BUF_POS, size)`
unfoldable pub copy_out : (n : ℕ) → Cmd (List ℕ)
unfolding ser_pos
copy_out n = do
  at ← ser_pos
  b ← get
  if leb (at + n) (length b.memory) then pure (read_at b.memory at n) else λ _. undefined

-- A program's functions behind the two kinds of pointers.
pub record Table (V : Type 0) : Type 0 where
  pub ser : ℕ → Option V → Cmd (Unit {0})
  pub dser : ℕ → Cmd (Option V)

-- A call through NULL is undefined.
abbrev call_ser : {V : Type 0} → Table V → Option ℕ → Option V → Cmd (Unit {0})
call_ser table none value = λ _. undefined
call_ser table (some f) value = table.ser f value

abbrev call_dser : {V : Type 0} → Table V → Option ℕ → Cmd (Option V)
call_dser table none = λ _. undefined
call_dser table (some f) = table.dser f

-- `serialized_buffer_do_serialize`, `serialized_buffer_do_deserialize`
unfoldable pub do_serialize : {V : Type 0} → Table V → Option V → Cmd (Unit {0})
do_serialize table value = do b ← get; call_ser table b.ser_func value

unfoldable pub do_deserialize : {V : Type 0} → Table V → Cmd (Option V)
do_deserialize table = do b ← get; call_dser table b.dser_func
