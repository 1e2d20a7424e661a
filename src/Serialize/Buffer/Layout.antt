-- ===== src/Serialize/Buffer/Layout.antt =====
-- Buffers whose `size` is the extent of their block and whose position lies inside it, and what the
-- operations of serialized_buffer.c do to them.
use c_playground.Prelude.{
  ℕ, ◌+◌, ◌-◌, ◌*◌, ◌^◌, ◌≤◌, ◌<◌, ◌≡◌, true, Option, List, ◌++◌, arith, length, take-all,
  length-append,
}
use c_playground.Machine.{pos, negsuc, Run, ok, undefined, fresh, length-fresh}
use c_playground.Serialize.Buffer.{live, World, Allocator, Cmd, ◌>>=◌, ◌>>◌, resize, skip}

-- The first command of a sequence has run.
pub bind-ok :
    {A B : Type 0} (m : Cmd A) (g : A → Cmd B) {w w' : World} {a : A} {r : Run (B × World)}
    → m w ≡ ok (a, w')
    → g a w' ≡ r
    → (m >>= g) w ≡ r
bind-ok m g e h = rw (e, ◌>>=◌) h

pub bind-undefined :
    {A B : Type 0} (m : Cmd A) (g : A → Cmd B) {w : World}
    → m w ≡ undefined
    → (m >>= g) w ≡ undefined
bind-undefined m g e = rw (e, ◌>>=◌)

pub then-ok :
    {B : Type 0} (m : Cmd (Unit {0})) (n : Cmd B) {w w' : World} {r : Run (B × World)}
    → m w ≡ ok (tt, w')
    → n w' ≡ r
    → (m >> n) w ≡ r
then-ok m n e h = bind-ok m (λ _. n) e h

-- The function pointers and the allocator's count, which most operations leave alone.
pub record Frame : Type 0 where
  pub ser_func : Option ℕ
  pub dser_func : Option ℕ

-- The world with `memory` behind the buffer and the position at `k`.
abbrev pub at : Frame → ℕ → List ℕ → ℕ → World
at f calls memory k = record {
  handle = live (record {
    memory = memory;
    size = pos (length memory);
    next = pos k;
    ser_func = f.ser_func;
    dser_func = f.dser_func;
  });
  calls = calls;
}

-- An allocator that never refuses.
abbrev pub IsGenerous : Allocator → Type 0
IsGenerous heap = (i : ℕ) → heap.grants i ≡ true

-- What `serialized_buffer_resize` leaves of a block: it, and as many new cells behind it.
abbrev pub doubled : Allocator → ℕ → List ℕ → List ℕ
doubled heap calls memory = memory ++ fresh (heap.garbage calls) (length memory) (length memory)

pub length-doubled :
    (heap : Allocator) (calls : ℕ) (memory : List ℕ)
    → length (doubled heap calls memory) ≡ length memory * 2
length-doubled heap calls memory = omega (
  arith,
  length-append memory (fresh (heap.garbage calls) (length memory) (length memory)),
  length-fresh (heap.garbage calls) (length memory) (length memory),
)

-- With memory to be had, a resize by 2 keeps the bytes and the position.
pub resize-doubled :
    (heap : Allocator) (f : Frame) (calls : ℕ) (memory : List ℕ) (k : ℕ)
    → heap.grants calls ≡ true
    → 0 < length memory
    → length memory < 2 ^ 30
    → resize heap 2 (at f calls memory k) ≡ ok (tt, at f (calls + 1) (doubled heap calls memory) k)
unfolding resize
resize-doubled heap f calls memory k granted pos_len small =
    ground
      (arith, take-all (length memory * 2) memory (omega arith), length-doubled heap calls memory)

-- A step back, as `deserialize_null` makes it.
pub skip-back :
    (heap : Allocator) (f : Frame) (calls : ℕ) (memory : List ℕ) (k : ℕ)
    → length memory < 2 ^ 31
    → k ≤ length memory
    → 4 ≤ k
    → skip heap (negsuc 3) (at f calls memory k) ≡ ok (tt, at f calls memory (k - 4))
unfolding skip
skip-back heap f calls memory k small inside four = ground arith

-- A step forward that stays inside the block.
pub skip-forward :
    (heap : Allocator) (f : Frame) (calls : ℕ) (memory : List ℕ) (k n : ℕ)
    → length memory < 2 ^ 31
    → k + n ≤ length memory
    → skip heap (pos n) (at f calls memory k) ≡ ok (tt, at f calls memory (k + n))
unfolding skip
skip-forward heap f calls memory k n small inside = ground arith
