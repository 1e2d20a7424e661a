-- ===== src/Rpc.antt =====
-- Linux/RPC/simple_rpc.c: the client's marshalling of `multiply(a, b)`, and the datagram it sends.
pub mod Laws
mod Tests
use c_playground.Prelude.{
  ℕ, ◌^◌, ◌<◌, ◌≡◌, refl, ap, ◌∙◌, Bool, true, false, Option, none, some, List, [], ◌++◌, arith,
  length, take, leb, if◌then◌else◌,
}
use c_playground.Machine.{
  ℤ, pos, negsuc, Run, ok, undefined, to_size, fits_int, pattern32, signed32, word_bytes,
  bytes_word, bytes_word-word_bytes, signed32-pattern32, pattern32-lt,
}
use c_playground.Serialize.Buffer.{
  Handle, World, Allocator, Cmd, pure, run_then, ◌>>=◌, ◌>>◌, create, reset, destroy, start_pos,
  buffer_size,
}
use c_playground.Serialize.Buffer.Layout.{IsGenerous}
use c_playground.Serialize.Write.{serialize_int}
use c_playground.Serialize.Read.{deserialize_int}
use c_playground.Serialize.Stream.{
  Returns, returns, bind, IsReader, serialize_data-IsWriter, reset-IsReader, create-IsWriter,
}
use c_playground.Serialize.Stream.Reading.{deserialize_int-IsReader}

-- `multiply_client_stub_marshal`
multiply_client_stub_marshal : Allocator → (a b : ℤ) → Cmd (Unit {0})
multiply_client_stub_marshal heap a b = do
  create heap none none
  serialize_int heap a
  serialize_int heap b

-- The bytes that are sent when `sendto` returns `rc`: none with -1.
abbrev pub sent_by : (rc : ℤ) → List ℕ → Option (List ℕ)
sent_by (pos n) bytes = some (take n bytes)
sent_by (negsuc n) bytes = none

-- `sendto` of `size` bytes from the start of the block, with what it returns; undefined past the end of
-- the block.
sendto : (rc : ℤ) (start : List ℕ) (size : ℤ) → Cmd (Option (List ℕ))
sendto rc start size w =
    if leb (to_size size) (length start)
    then ok (sent_by rc (take (to_size size) start), w)
    else undefined

-- What the system answers: whether `gethostbyname` finds the host and `socket` makes a socket, and what
-- `sendto` returns.
pub record Answers : Type 0 where
  pub host : Bool
  pub socket : Bool
  pub rc : ℤ

-- Behind `gethostbyname`, whose result is followed untested.
abbrev with_host : (host socket : Bool) (rc : ℤ) → Cmd (Option (List ℕ))
unfolding sendto
with_host false socket rc = λ w. undefined
with_host true false rc = pure none
with_host true true rc = do start ← start_pos; size ← buffer_size; sendto rc start size

-- `rpc_send_recv`: what `sendto` sends, if it is called. The result of `sendto` is only printed.
rpc_send_recv : Answers → Cmd (Option (List ℕ))
unfolding with_host
rpc_send_recv answers = with_host answers.host answers.socket answers.rc

-- A command on another buffer, which it leaves behind.
beside : Cmd (Unit {0}) → Cmd Handle
beside m w =
    run_then (m (record w { handle = Handle.null }))
      λ _ w'. ok (w'.handle, record w' { handle = w.handle })

-- What a call of `multiply_rpc` leaves: its value, of which the source returns none, what was sent, and
-- the buffer for the answer, which nobody reads or destroys.
pub record Called : Type 0 where
  pub value : Option ℤ
  pub sent : Option (List ℕ)
  pub recv : Handle

-- `multiply_rpc`
pub multiply_rpc : Allocator → Answers → (a b : ℤ) → Cmd Called
unfolding multiply_client_stub_marshal rpc_send_recv beside
multiply_rpc heap answers a b = do
  multiply_client_stub_marshal heap a b
  recv ← beside (create heap none none)
  sent ← rpc_send_recv answers
  destroy
  pure (record { value = none; sent = sent; recv = recv })

-- An argument of `printf`: undefined where a function has returned no value.
abbrev print_value : Option ℤ → Cmd ℤ
print_value none = λ w. undefined
print_value (some x) = pure x

-- `main`, with the number that it prints.
pub main : Allocator → Answers → Cmd ℤ
unfolding multiply_rpc
main heap answers = do called ← multiply_rpc heap answers (pos 3) (pos 5); print_value called.value

-- The two reads that undo it, from the start of the buffer.
unmarshal : Cmd (ℤ × ℤ)
unmarshal = do reset; a ← deserialize_int; b ← deserialize_int; pure (a, b)

word_value : (x : ℤ) → fits_int x ≡ true → signed32 (bytes_word (word_bytes (pattern32 x))) ≡ x
word_value x small =
    ap signed32 (bytes_word-word_bytes (pattern32 x) (pattern32-lt x)) ∙ signed32-pattern32 x small

-- With memory to be had, the buffer that the client marshals holds its two arguments: for all `int`
-- values, two calls of `deserialize_int` from the start return them in order.
marshal_round_trip :
    (heap : Allocator) (a b : ℤ) (w : World)
    → IsGenerous heap
    → fits_int a ≡ true
    → fits_int b ≡ true
    → Returns (λ got _. got ≡ (a, b)) ((do multiply_client_stub_marshal heap a b; unmarshal) w)
unfolding multiply_client_stub_marshal unmarshal serialize_int
marshal_round_trip heap a b w gen ha hb =
    bind
      (bind (create-IsWriter heap none none w gen) λ _ w1 v1.
        bind (serialize_data-IsWriter heap (word_bytes (pattern32 a)) gen v1 (omega arith))
          λ _ w2 v2. serialize_data-IsWriter heap (word_bytes (pattern32 b)) gen v2 (omega arith))
      λ _ w3 v3. bind (reset-IsReader v3) λ _ w4 v4.
        bind (deserialize_int-IsReader a (word_bytes (pattern32 a)) _ refl (word_value a ha) v4)
          λ x w5 (ex, v5).
            bind
              (deserialize_int-IsReader b (word_bytes (pattern32 b)) [] refl (word_value b hb) v5)
              λ y w6 (ey, v6). returns (rw (ex, ey))
