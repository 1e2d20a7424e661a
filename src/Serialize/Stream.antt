-- ===== src/Serialize/Stream.antt =====
-- The buffer as a stream of bytes: what has been written, and what is left to read.
pub mod Reading
use mathlib.Core.List.{append-nil, append_assoc}
use c_playground.Prelude.{
  ℕ, zero, suc, ◌+◌, ◌-◌, ◌^◌, ◌≤◌, ◌<◌, ◌≡◌, refl, ap, sym, ◌∙◌, subst, Bool, true, false, Option,
  none, some, List, [], ◌∷◌, ◌++◌, arith, length, take, drop, length-append, replicate,
  if◌then◌else◌,
}
use c_playground.Machine.{Run, ok, write_at, write_at-append, length-write_at}
use c_playground.Serialize.Buffer.{World, Allocator, Cmd, run_then, reset, create}
use c_playground.Serialize.Buffer.Layout.{Frame, at, IsGenerous}
use c_playground.Serialize.Write.{serialize_data}
use c_playground.Serialize.Write.Laws.{Appended, serialize_data-Appended}

-- A run that ends with a value: no undefined behaviour, no loop cut short, and a postcondition.
pub data Returns {A : Type 0} (P : A → World → Type 0) : Run (A × World) → Type 0 where
  returns : {a : A} {w : World} → P a w → Returns P (ok (a, w))

pub bind :
    {A B : Type 0} {P : A → World → Type 0} {Q : B → World → Type 0} {r : Run (A × World)}
    {k : A → Cmd B}
    → Returns P r
    → ((a : A) (w' : World) → P a w' → Returns Q (k a w'))
    → Returns Q (run_then r k)
bind (returns p) next = next _ _ p

-- `s` has been written and the position stands behind it.
pub record IsWriter (f : Frame) (s : List ℕ) (w : World) : Type 0 where
  pub calls : ℕ
  pub tail : List ℕ
  pub state : w ≡ at f calls (s ++ tail) (length s)
  pub some_room : 0 < length (s ++ tail)
  pub extent : length (s ++ tail) < 2 ^ 31

-- `rest` lies ahead of the position.
pub record IsReader (f : Frame) (rest : List ℕ) (w : World) : Type 0 where
  pub calls : ℕ
  pub before : List ℕ
  pub tail : List ℕ
  pub state : w ≡ at f calls (before ++ (rest ++ tail)) (length before)
  pub extent : length (before ++ (rest ++ tail)) < 2 ^ 31

Appended-IsWriter :
    {heap : Allocator} {f : Frame} {calls : ℕ} {r : Run (Unit {0} × World)} (s tail bytes : List ℕ)
    → Appended heap f calls (s ++ tail) (length s) bytes r
    → 0 < length (s ++ tail)
    → Returns (λ _ w'. IsWriter f (s ++ bytes) w') r
Appended-IsWriter {f} s tail bytes g some_room = rw g.run (
    returns (record {
      calls = g.calls';
      tail = drop (length bytes) (tail ++ g.extra);
      state = rw block (
          ap (λ k. at f g.calls' ((s ++ bytes) ++ drop (length bytes) (tail ++ g.extra)) k)
            (sym (length-append s bytes)));
      some_room = omega (arith, ap length block, size, length-append (s ++ tail) g.extra);
      extent = omega (arith, ap length block, size, g.extent);
    }))
  where
    block :
        write_at ((s ++ tail) ++ g.extra) (length s) bytes
        ≡ (s ++ bytes) ++ drop (length bytes) (tail ++ g.extra)
    block = rw (append_assoc s tail g.extra) (write_at-append s (tail ++ g.extra) bytes)

    size :
        length (write_at ((s ++ tail) ++ g.extra) (length s) bytes)
        ≡ length ((s ++ tail) ++ g.extra)
    size = length-write_at ((s ++ tail) ++ g.extra) (length s) bytes g.room

-- With memory to be had and less than 2 ^ 30 bytes in all, `serialize_data` appends to the stream.
pub serialize_data-IsWriter :
    (heap : Allocator) {f : Frame} {s : List ℕ} {w : World} (bytes : List ℕ)
    → IsGenerous heap
    → IsWriter f s w
    → length s + length bytes < 2 ^ 30
    → Returns (λ _ w'. IsWriter f (s ++ bytes) w') (serialize_data heap bytes (length bytes) w)
serialize_data-IsWriter heap {f} {s} bytes gen v need = rw v.state (
    Appended-IsWriter s v.tail bytes
      (serialize_data-Appended heap f v.calls (s ++ v.tail) (length s) bytes gen v.some_room
        v.extent (omega (arith, length-append s v.tail)) need)
      v.some_room)

-- `serialized_buffer_reset` turns what was written into what is to be read.
pub reset-IsReader :
    {f : Frame} {s : List ℕ} {w : World}
    → IsWriter f s w
    → Returns (λ _ w'. IsReader f s w') (reset w)
unfolding reset
reset-IsReader {f} {s} v = rw v.state (
    returns
      (record { calls = v.calls; before = []; tail = v.tail; state = refl; extent = v.extent }))

-- With memory to be had, `serialized_buffer_create` gives an empty stream.
pub create-IsWriter :
    (heap : Allocator) (fptr dfptr : Option ℕ) (w : World)
    → IsGenerous heap
    → Returns
        (λ _ w'. IsWriter (record { ser_func = fptr; dser_func = dfptr }) [] w')
        (create heap fptr dfptr w)
unfolding create
create-IsWriter heap fptr dfptr w gen =
    rw (gen w.calls, gen (w.calls + 1))
      (returns (record {
        calls = w.calls + 2;
        tail = replicate 512 0;
        state = refl;
        some_room = omega arith;
        extent = omega arith;
      }))
