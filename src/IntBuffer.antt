-- ===== src/IntBuffer.antt =====
-- Pointers/copy_data_to_pointer_position.c: ten ints are copied one behind the other through a pointer
-- that moves along a block. The addresses that it prints are left out.
pub mod Laws
mod Tests
use c_playground.Prelude.{
  ℕ, zero, suc, ◌+◌, ◌*◌, Bool, true, false, Option, none, some, List, [], ◌∷◌, leb, length,
  if◌then◌else◌,
}
use c_playground.Machine.{word_bytes, bytes_word, read_at, write_at}

-- `buf_t`: the block at `data`, and how far `ptr` is behind its start.
pub record Buf : Type 0 where
  pub cells : List ℕ
  pub ptr : ℕ
  pub capacity : ℕ
  pub size : ℕ

-- `sizeof(int)`
abbrev pub sizeof_int : ℕ
sizeof_int = 4

-- What a round leaves, and the int that it prints from behind `ptr`.
pub record Round : Type 0 where
  pub buf : Buf
  pub printed : ℕ

-- A round of the loop; `none` when it writes past the end of the block.
unfoldable pub copy_int : ℕ → Buf → Option Round
copy_int i buf =
    let cells = write_at buf.cells buf.ptr (word_bytes i) in
    if leb (buf.ptr + sizeof_int) (length buf.cells)
    then some (record {
      buf = record buf { cells = cells; ptr = buf.ptr + sizeof_int };
      printed = bytes_word (read_at cells buf.ptr sizeof_int);
    })
    else none

-- What the loop leaves, and all that it has printed.
pub record Copies : Type 0 where
  pub buf : Buf
  pub printed : List ℕ

abbrev pub with_printed : ℕ → Option Copies → Option Copies
with_printed x none = none
with_printed x (some c) = some (record c { printed = x ∷ c.printed })

abbrev pub behind_round : Option Round → (Buf → Option Copies) → Option Copies
behind_round none rest = none
behind_round (some r) rest = with_printed r.printed (rest r.buf)

-- The loop, from `i` on.
unfoldable pub copy_ints : (left i : ℕ) → Buf → Option Copies
copy_ints zero i buf = some (record { buf = buf; printed = [] })
copy_ints (suc left) i buf = behind_round (copy_int i buf) (copy_ints left (i + 1))

pub data Main : Type 0 where
  exit_failure : Main
  ran : Option Copies → Main

-- `main`, with what the two calls of `malloc` return.
unfoldable pub run_main : (handle : Bool) (memory : Option (List ℕ)) → Main
unfolding copy_ints copy_int
run_main false memory = exit_failure
run_main true none = exit_failure
run_main true (some cells) =
    ran (copy_ints 10 0 (record { cells = cells; ptr = 0; capacity = sizeof_int * 10; size = 0 }))
