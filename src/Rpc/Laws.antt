-- ===== src/Rpc/Laws.antt =====
-- What the client of simple_rpc.c sends.
use mathlib.Core.List.{append-nil}
use c_playground.Prelude.{
  ℕ, ◌+◌, ◌^◌, ◌<◌, ◌≤◌, ◌≡◌, refl, ap, ◌∙◌, true, Option, none, List, [], ◌++◌, arith, length,
  drop, length-append, replicate,
}
use c_playground.Machine.{
  ℤ, pos, Run, ok, undefined, pattern32, word_bytes, write_at, write_at-append,
}
use c_playground.Serialize.Buffer.{
  SerBuff, Handle, live, freed, World, Allocator, create, destroy, start_pos, buffer_size,
}
use c_playground.Serialize.Buffer.Layout.{Frame, at, IsGenerous, then-ok}
use c_playground.Serialize.Write.{serialize_data, serialize_int}
use c_playground.Serialize.Write.Laws.{serialize_data-Appended}
use c_playground.Rpc.{
  multiply_client_stub_marshal, sendto, rpc_send_recv, beside, multiply_rpc, sent_by, Answers, main,
}

-- A write that fits: the block does not grow.
record Fitted (f : Frame) (s tail bytes : List ℕ) (r : Run (Unit {0} × World)) : Type 0 where
  calls : ℕ
  run : r ≡ ok (tt, at f calls ((s ++ bytes) ++ drop (length bytes) tail) (length s + length bytes))

serialize_data-Fitted :
    (heap : Allocator) (f : Frame) (calls : ℕ) (s tail bytes : List ℕ)
    → IsGenerous heap
    → 0 < length bytes
    → length bytes ≤ length tail
    → length (s ++ tail) < 2 ^ 30
    → Fitted f s tail bytes
        (serialize_data heap bytes (length bytes) (at f calls (s ++ tail) (length s)))
serialize_data-Fitted heap f calls s tail bytes gen some_bytes fits small =
    let size = length-append s tail in
    let x =
      serialize_data-Appended heap f calls (s ++ tail) (length s) bytes gen (omega (arith, size))
        (omega (arith, small)) (omega (arith, size)) (omega (arith, size, small)) in
    let none_new = x.exact (omega (arith, size)) in
    record {
      calls = x.calls';
      run =
          x.run
          ∙ ap
              (λ e. ok (
                tt,
                at f x.calls' (write_at ((s ++ tail) ++ e) (length s) bytes)
                    (length s + length bytes),
              ))
              none_new
          ∙ ap (λ m. ok (tt, at f x.calls' (write_at m (length s) bytes) (length s + length bytes)))
              (append-nil (s ++ tail))
          ∙ ap (λ m. ok (tt, at f x.calls' m (length s + length bytes)))
              (write_at-append s tail bytes);
    }

-- The eight bytes of the arguments.
abbrev pub arguments : ℤ → ℤ → List ℕ
arguments a b = word_bytes (pattern32 a) ++ word_bytes (pattern32 b)

abbrev no_functions : Frame
no_functions = record { ser_func = none; dser_func = none }

-- The marshalled buffer.
record Marshalled (a b : ℤ) (r : Run (Unit {0} × World)) : Type 0 where
  calls : ℕ
  run : r ≡ ok (tt, at no_functions calls (arguments a b ++ replicate 504 0) 8)

marshal-Marshalled :
    (heap : Allocator) (a b : ℤ) (w : World)
    → IsGenerous heap
    → Marshalled a b (multiply_client_stub_marshal heap a b w)
unfolding multiply_client_stub_marshal serialize_int create
marshal-Marshalled heap a b w gen =
    let x =
      serialize_data-Fitted heap no_functions (w.calls + 2) [] (replicate 512 0)
        (word_bytes (pattern32 a)) gen (omega arith) (omega arith) (omega arith) in
    let y =
      serialize_data-Fitted heap no_functions x.calls (word_bytes (pattern32 a)) (replicate 508 0)
        (word_bytes (pattern32 b)) gen (omega arith) (omega arith) (omega arith) in
    let made : create heap none none w
        ≡ ok (tt, at no_functions (w.calls + 2) (replicate 512 0) 0) =
      rw (gen w.calls, gen (w.calls + 1)) refl in
    record {
      calls = y.calls;
      run =
          then-ok (create heap none none) _ {w = w} made
            (then-ok (serialize_int heap a) (serialize_int heap b) x.run y.run);
    }

-- The host is found, and there is a socket.
abbrev pub connected : (rc : ℤ) → Answers
connected rc = record { host = true; socket = true; rc = rc }

abbrev empty_buffer : SerBuff
empty_buffer = record {
  memory = replicate 512 0;
  size = pos 512;
  next = pos 0;
  ser_func = none;
  dser_func = none;
}

sends :
    (heap : Allocator) (rc a b : ℤ) (w : World)
    → IsGenerous heap
    → (recv : SerBuff) × (w' : World) × (multiply_rpc heap (connected rc) a b w
        ≡ ok (
          record {
            value = none;
            sent = sent_by rc (arguments a b ++ replicate 504 0);
            recv = live recv;
          },
          w',
        ))
      × (w'.handle ≡ freed)
unfolding multiply_rpc rpc_send_recv sendto beside start_pos buffer_size destroy create
sends heap rc a b w gen =
    let x = marshal-Marshalled heap a b w gen in
    let marshalled = x.run in
    let g = gen x.calls in
    let g' = gen (x.calls + 1) in
    (
      empty_buffer,
      record { handle = freed; calls = x.calls + 2 },
      rw (marshalled, g, g') refl,
      refl,
    )

prints_none :
    (heap : Allocator) (answers : Answers) (w : World) {sent : Option (List ℕ)} {recv : Handle}
    {w' : World}
    → multiply_rpc heap answers (pos 3) (pos 5) w
      ≡ ok (record { value = none; sent = sent; recv = recv }, w')
    → main heap answers w ≡ undefined
unfolding main
prints_none heap answers w run = rw run refl

-- With memory to be had, a host and a socket, `multiply_rpc` comes to its end for every result of
-- `sendto`. It has sent as many bytes as that result says of its block of 512, the eight bytes of its
-- arguments and 504 zeros, and none with -1; it has freed the buffer, the buffer for the answer is left
-- live, and it returns no value. So `main`, which prints that value, is undefined.
pub multiply_rpc-sends :
    (heap : Allocator) (rc a b : ℤ) (w : World)
    → IsGenerous heap
    → (recv : SerBuff) × (w' : World) × (multiply_rpc heap (connected rc) a b w
        ≡ ok (
          record {
            value = none;
            sent = sent_by rc (arguments a b ++ replicate 504 0);
            recv = live recv;
          },
          w',
        ))
      × (w'.handle ≡ freed)
      × (main heap (connected rc) w ≡ undefined)
multiply_rpc-sends heap rc a b w gen =
    let x = sends heap rc a b w gen in
    let y = sends heap rc (pos 3) (pos 5) w gen in
    (x.0, x.1, x.2, x.3, prints_none heap (connected rc) w y.2)
