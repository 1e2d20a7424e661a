-- ===== src/Sockets/Protocol.antt =====
-- What POSIX says of the calls on a stream socket: in which stage a descriptor must be for a call, and
-- in which stage a call that succeeds leaves it.
use c_playground.Prelude.{ℕ, Bool, true, false, Option, none, some, update}
use c_playground.Machine.{ℤ, pos, negsuc}
use c_playground.Calls.{Protocol}
use c_playground.Sockets.{
  Call, socket, setsockopt, bind, listen, accept, inet_pton, connect, read, send,
}

pub data Stage : Type 0 where
  fresh bound listening connected : Stage

-- The open sockets.
abbrev pub Table : Type 0
Table = ℕ → Option Stage

abbrev pub no_sockets : Table
no_sockets n = none

abbrev pub stage : ℤ → Table → Option Stage
stage (pos n) t = t n
stage (negsuc n) t = none

-- The stages that a call can be made in.
abbrev pub is_open : Option Stage → Bool
is_open none = false
is_open (some _) = true

abbrev pub is_fresh : Option Stage → Bool
is_fresh (some fresh) = true
is_fresh _ = false

abbrev pub is_bound : Option Stage → Bool
is_bound (some bound) = true
is_bound _ = false

abbrev pub is_listening : Option Stage → Bool
is_listening (some listening) = true
is_listening _ = false

abbrev pub is_connected : Option Stage → Bool
is_connected (some connected) = true
is_connected _ = false

abbrev pub allowed : Call → Table → Bool
allowed socket t = true
allowed (setsockopt fd) t = is_open (stage fd t)
allowed (bind fd) t = is_fresh (stage fd t)
allowed (listen fd) t = is_bound (stage fd t)
allowed (accept fd) t = is_listening (stage fd t)
allowed inet_pton t = true
allowed (connect fd) t = is_fresh (stage fd t)
allowed (read fd) t = is_connected (stage fd t)
allowed (send fd) t = is_connected (stage fd t)

-- The descriptor that changes its stage, if the call succeeds with this result.
abbrev pub moved : ℤ → Stage → ℤ → Option (ℕ × Stage)
moved (pos n) s (pos _) = some (n, s)
moved _ _ _ = none

abbrev pub change : Call → ℤ → Option (ℕ × Stage)
change socket r = moved r fresh r
change (bind fd) r = moved fd bound r
change (listen fd) r = moved fd listening r
change (accept fd) r = moved r connected r
change (connect fd) r = moved fd connected r
change _ r = none

abbrev pub apply : Option (ℕ × Stage) → Table → Table
apply none t = t
apply (some (n, s)) t = update t n (some s)

-- The protocol of stream sockets.
abbrev pub protocol : Protocol Call Table
protocol = record { allowed = allowed; after = λ c r t. apply (change c r) t }
