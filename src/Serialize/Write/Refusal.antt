-- ===== src/Serialize/Write/Refusal.antt =====
-- What becomes of a write when the allocator refuses, and that its loop always ends.
use native.Mathlib.Nat.{pow-suc}
use c_playground.Prelude.{
  sym, Bool-cases, if◌then◌else◌, take, ◌++◌, ℕ, zero, suc, ◌+◌, ◌-◌, ◌*◌, ◌^◌, ◌≤◌, ◌<◌, ◌≡◌, ◌≢◌,
  ◌⊎◌, inl, inr, refl, ap, ◌∙◌, Bool, true, false, none, List, arith, length, dec_lt,
}
use c_playground.Machine.{pos, Run, ok, undefined, out_of_fuel, fresh}
use c_playground.Serialize.Buffer.{
  Allocator, World, Cmd, SerBuff, Handle, live, ◌>>=◌, ◌>>◌, run_then, resize, copy_in,
  ser_pos_incr, grow_rounds, buffer_size, buffer_next,
}
use c_playground.Serialize.Buffer.Layout.{Frame, at, bind-ok, bind-undefined, then-ok}
use c_playground.Serialize.Write.Laws.{available-at, grow-step, grow-done}
use c_playground.Serialize.Write.{available, grow, store, write_data, serialize_data}

-- The world after a refused resize: `size` is doubled, the block is not.
abbrev overstated : Frame → ℕ → List ℕ → ℕ → World
overstated f calls memory k = record {
  handle = live (record {
    memory = memory;
    size = pos (length memory * 2);
    next = pos k;
    ser_func = f.ser_func;
    dser_func = f.dser_func;
  });
  calls = calls;
}

-- A refused `realloc` leaves a buffer whose `size` is twice its block.
pub resize-overstated :
    (heap : Allocator) (f : Frame) (calls : ℕ) (memory : List ℕ) (k : ℕ)
    → heap.grants calls ≡ false
    → 0 < length memory
    → length memory < 2 ^ 30
    → resize heap 2 (at f calls memory k) ≡ ok (tt, overstated f (calls + 1) memory k)
unfolding resize
resize-overstated heap f calls memory k refused some_room small = ground arith

module _ (heap : Allocator) (f : Frame) (calls : ℕ) (memory : List ℕ) (k : ℕ) where
  available-overstated :
      k ≤ length memory
      → length memory < 2 ^ 30
      → available (overstated f calls memory k)
        ≡ ok (length memory * 2 - k, overstated f calls memory k)
  unfolding available buffer_size buffer_next
  available-overstated inside small = ground arith

  store-overrun :
      (bytes : List ℕ) (n : ℕ)
      → k ≤ length memory
      → length memory < k + n
      → store bytes n (overstated f calls memory k) ≡ undefined
  unfolding store copy_in
  store-overrun bytes n inside over = ground arith

-- When the block is too small and the one resize that would do is refused, `serialize_data` writes
-- past the end of the block.
pub serialize_data-overrun :
    (heap : Allocator) (f : Frame) (calls : ℕ) (memory : List ℕ) (k : ℕ) (bytes : List ℕ)
    → heap.grants calls ≡ false
    → length memory < 2 ^ 30
    → k ≤ length memory
    → length memory < k + length bytes
    → k + length bytes ≤ length memory * 2
    → serialize_data heap bytes (length bytes) (at f calls memory k) ≡ undefined
unfolding serialize_data write_data
serialize_data-overrun heap f calls memory k bytes refused small inside over twice =
    bind-ok available _ (available-at f calls memory k inside (omega arith)) (
      bind-ok (grow heap grow_rounds (length bytes) (length memory - k) false) _ grown
        (store-overrun heap f (calls + 1) memory k bytes (length bytes) inside over))
  where
    grown :
        grow heap grow_rounds (length bytes) (length memory - k) false (at f calls memory k)
        ≡ ok (true, overstated f (calls + 1) memory k)
    grown =
        grow-step heap f k (length bytes) 63 (length memory - k) false (at f calls memory k)
          (omega arith)
        ∙ then-ok (resize heap 2) _
            (resize-overstated heap f calls memory k refused (omega arith) small)
            (bind-ok available _ (available-overstated heap f (calls + 1) memory k inside small)
              (grow-done heap f k (length bytes) 62 (length memory * 2 - k) true _ (omega arith)))

-- A live buffer that reports the size `n`.
abbrev pub sized : SerBuff → ℕ → World
sized b calls = record { handle = live b; calls = calls }

abbrev no_frame : Frame
no_frame = record { ser_func = none; dser_func = none }

module _ (heap : Allocator) where
  -- A resize overflows, or doubles the reported size, whether it is granted or refused.
  resize-cases :
      (b : SerBuff) (calls n : ℕ)
      → b.size ≡ pos n
      → 0 < n
      → (resize heap 2 (sized b calls) ≡ undefined)
        ⊎ ((b' : SerBuff) × (calls' : ℕ) × (resize heap 2 (sized b calls)
              ≡ ok (tt, sized b' calls'))
            × (b'.size ≡ pos (n * 2))
            × (n * 2 < 2 ^ 31))
  unfolding resize
  resize-cases b calls n e some_size = elim (dec_lt (n * 2) (2 ^ 31)) [
    | no over ↦ inl (ground arith)
    | yes fits ↦ elim (Bool-cases (heap.grants calls)) [
      | inr refused ↦ inr (record b { size = pos (n * 2) }, calls + 1, ground arith, refl, fits)
      | inl granted ↦ inr (
        record b {
          size = pos (n * 2);
          memory =
              take (n * 2) b.memory
              ++ fresh (heap.garbage calls) (length b.memory) (n * 2 - length b.memory);
        },
        calls + 1,
        ground arith,
        refl,
        fits,
      )
    ]
  ]

  available-cases :
      (b : SerBuff) (calls : ℕ)
      → (available (sized b calls) ≡ undefined)
        ⊎ ((room : ℕ) × (available (sized b calls) ≡ ok (room, sized b calls)))
  unfolding available buffer_size buffer_next
  available-cases b calls = ground arith

  -- One more round, if the rounds after it come to an end.
  grow-goes_on :
      (fuel : ℕ) (b : SerBuff) (calls n size : ℕ)
      → b.size ≡ pos n
      → 0 < n
      → ((b' : SerBuff) (calls' room : ℕ)
          → b'.size ≡ pos (n * 2)
          → n * 2 < 2 ^ 31
          → grow heap fuel size room true (sized b' calls') ≢ out_of_fuel)
      → (do resize heap 2; again ← available; grow heap fuel size again true) (sized b calls)
        ≢ out_of_fuel
  grow-goes_on fuel b calls n size e some_size ih out = elim (resize-cases b calls n e some_size) [
    | inl u ↦ cc (
        bind-undefined (resize heap 2) (λ _. do again ← available; grow heap fuel size again true)
          u)
    | inr (b', calls', run, e', lt) ↦ elim (available-cases b' calls') [
      | inl u ↦ cc (
          then-ok (resize heap 2) (do again ← available; grow heap fuel size again true) run
            (bind-undefined available (λ again. grow heap fuel size again true) u))
      | inr (room, av) ↦ ih b' calls' room e' lt (
          sym (
            then-ok (resize heap 2) _ run
              (bind-ok available (λ again. grow heap fuel size again true) av refl))
          ∙ out)
    ]
  ]

  grow-round :
      (fuel : ℕ) (b : SerBuff) (calls n size room : ℕ) (flag : Bool)
      → b.size ≡ pos n
      → 0 < n
      → ((b' : SerBuff) (calls' room : ℕ)
          → b'.size ≡ pos (n * 2)
          → n * 2 < 2 ^ 31
          → grow heap fuel size room true (sized b' calls') ≢ out_of_fuel)
      → grow heap (suc fuel) size room flag (sized b calls) ≢ out_of_fuel
  grow-round fuel b calls n size room flag e some_size ih out = elim (dec_lt room size) [
    | no enough ↦ cc (grow-done heap no_frame 0 size fuel room flag (sized b calls) (omega arith))
    | yes short ↦
        grow-goes_on fuel b calls n size e some_size ih
          (sym (grow-step heap no_frame 0 size fuel room flag (sized b calls) short) ∙ out)
  ]

  grow-halts :
      (fuel : ℕ) (b : SerBuff) (calls n size room : ℕ) (flag : Bool)
      → b.size ≡ pos n
      → 0 < n
      → 2 ^ 31 ≤ n * 2 ^ fuel
      → grow heap (suc fuel) size room flag (sized b calls) ≢ out_of_fuel
  grow-halts zero b calls n size room flag e some_size rounds =
      grow-round zero b calls n size room flag e some_size
        (λ b' calls' room' e' lt. absurd (omega arith))
  grow-halts (suc fuel) b calls n size room flag e some_size rounds =
      grow-round (suc fuel) b calls n size room flag e some_size (λ b' calls' room' e' lt.
        grow-halts fuel b' calls' (n * 2) size room' true e' (omega arith)
          (omega (arith, pow-suc 2 fuel, ap (λ (x : ℕ). n * x) (pow-suc 2 fuel))))

run_then-halts :
    {A B : Type 0} (r : Run (A × World)) (k : A → Cmd B)
    → r ≢ out_of_fuel
    → ((a : A) (w : World) → k a w ≢ out_of_fuel)
    → run_then r k ≢ out_of_fuel
run_then-halts (ok (a, w)) k h next = next a w
run_then-halts undefined k h next = cc
run_then-halts out_of_fuel k h next = λ _. h refl

store-halts :
    (bytes : List ℕ) (n : ℕ) (h : Handle) (calls : ℕ)
    → store bytes n (record { handle = h; calls = calls }) ≢ out_of_fuel
unfolding store copy_in ser_pos_incr
store-halts bytes n Handle.null calls = ground arith
store-halts bytes n Handle.freed calls = ground arith
store-halts bytes n (live b) calls = ground arith

-- The last lines of `serialize_data`, whichever value `is_resized` has.
abbrev stores : List ℕ → ℕ → Bool → Cmd (Unit {0})
stores bytes size is_resized = if is_resized then store bytes size else store bytes size

abbrev rest : Allocator → List ℕ → ℕ → ℕ → Cmd (Unit {0})
rest heap bytes size room = grow heap grow_rounds size room false >>= stores bytes size

stores-halts :
    (bytes : List ℕ) (n : ℕ) (flag : Bool) (w : World) → stores bytes n flag w ≢ out_of_fuel
stores-halts bytes n true w = store-halts bytes n w.handle w.calls
stores-halts bytes n false w = store-halts bytes n w.handle w.calls

-- For any allocator, granting or refusing, and any number of bytes, `serialize_data` on a live buffer of
-- positive size does not loop for ever: within the rounds that it is given its loop stops, or runs into
-- undefined behaviour, such as the overflow of the `int` that holds the size.
pub serialize_data-halts :
    (heap : Allocator) (bytes : List ℕ) (size : ℕ) (b : SerBuff) (calls n : ℕ)
    → b.size ≡ pos n
    → 0 < n
    → serialize_data heap bytes size (sized b calls) ≢ out_of_fuel
unfolding serialize_data write_data
serialize_data-halts heap bytes size b calls n e some_size = elim (available-cases heap b calls) [
  | inl u ↦ λ out. cc
  | inr (room, av) ↦ λ out.
      run_then-halts (grow heap grow_rounds size room false (sized b calls)) (stores bytes size)
        (grow-halts heap 63 b calls n size room false e some_size (omega arith))
        (stores-halts bytes size) (sym (bind-ok available (rest heap bytes size) av refl) ∙ out)
]
