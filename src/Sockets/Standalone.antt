-- ===== src/Sockets/Standalone.antt =====
-- `main` of tcp_standalone.c: the two workers run `create_socket` at the same time, and when both are
-- back, `socket_server` and `socket_client`. Each of the two pools has one worker, `thpool_wait` returns
-- when its job is back, and the allocations do not fail.
pub mod Laws
use c_playground.Prelude.{ℕ, ◌≡◌, Bool, true, false, ◌||◌, Option, none}
use c_playground.Machine.{ℤ, pos, negsuc}
use c_playground.Calls.{Ending, goes_back, stored, Program, ends, call, negative}
use c_playground.Sockets.{Call, socket, accept, create_socket, socket_server, socket_client}
use c_playground.Sockets.Protocol.{Table, no_sockets, protocol}

-- What the jobs of the two workers still do, the open sockets, and whether a `socket` has failed.
pub record System : Type 0 where
  pub server : Program Call
  pub client : Program Call
  pub sockets : Table
  pub refused : Bool

-- A descriptor that is returned was not open.
abbrev pub IsNew : ℤ → Table → Type 0
IsNew (pos n) t = t n ≡ none
IsNew (negsuc n) t = Unit

abbrev pub Returns : Call → ℤ → Table → Type 0
Returns socket r t = IsNew r t
Returns (accept fd) r t = IsNew r t
Returns _ r t = Unit

-- `socket` fails.
abbrev pub refuses : Call → ℤ → Bool
refuses socket r = negative r
refuses _ r = false

pub data Step (s : System) : System → Type 0 where
  by_server :
      (c : Call) {k : ℤ → Program Call} (r : ℤ)
      → s.server ≡ call c k
      → Returns c r s.sockets
      → Step s (record s {
        server = k r;
        sockets = protocol.after c r s.sockets;
        refused = s.refused || refuses c r;
      })
  by_client :
      (c : Call) {k : ℤ → Program Call} (r : ℤ)
      → s.client ≡ call c k
      → Returns c r s.sockets
      → Step s (record s {
        client = k r;
        sockets = protocol.after c r s.sockets;
        refused = s.refused || refuses c r;
      })
  -- Both `thpool_wait` have returned, and the next jobs are added.
  waited :
      (fd fd' : ℤ)
      → s.server ≡ ends (stored fd)
      → s.client ≡ ends (stored fd')
      → Step s (record s { server = socket_server fd; client = socket_client fd' })

abbrev pub begin : System
begin = record {
  server = create_socket;
  client = create_socket;
  sockets = no_sockets;
  refused = false;
}

pub data Reach : System → Type 0 where
  start : Reach begin
  later : {s t : System} → Reach s → Step s t → Reach t
