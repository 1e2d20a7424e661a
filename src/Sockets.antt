-- ===== src/Sockets.antt =====
-- Linux/Socket: `main` of tcp_server.c and of tcp_client.c, and the jobs of tcp_standalone.c, as the
-- calls that they make by what the calls return. The addresses, the contents of the buffers and the
-- output are left out.
pub mod Protocol
pub mod Laws
pub mod Standalone
mod Tests
use c_playground.Prelude.{ℕ, Bool, true, false, if◌then◌else◌}
use c_playground.Machine.{ℤ, pos, negsuc}
use c_playground.Calls.{
  Ending, goes_back, stored, undefined, exits, exit_success, exit_failure, Program, ends, call,
  negative, nonzero, positive,
}

-- The calls on sockets, with the descriptor.
pub data Call : Type 0 where
  socket : Call  -- AF_INET, SOCK_STREAM
  setsockopt : ℤ → Call  -- SO_REUSEADDR | SO_REUSEPORT
  bind : ℤ → Call  -- INADDR_ANY, PORT
  listen : ℤ → Call  -- a backlog of 3
  accept : ℤ → Call
  inet_pton : Call  -- 127.0.0.1
  connect : ℤ → Call  -- to that address, PORT
  read : ℤ → Call  -- 1024 bytes
  send : ℤ → Call  -- the greeting

-- A server on its socket: how it ends when a call fails, and when it has sent its greeting.
abbrev pub serve : (fail done : Ending) → (server_fd : ℤ) → Program Call
serve fail done server_fd = call (setsockopt server_fd) λ r.
    if nonzero r
    then ends fail
    else call (bind server_fd) λ r'.
      if negative r'
      then ends fail
      else call (listen server_fd) λ r''.
        if negative r''
        then ends fail
        else call (accept server_fd) λ client_fd.
          if negative client_fd
          then ends fail
          else call (read client_fd) λ val_read. call (send client_fd) λ sent. ends done

-- A client on its socket: how it ends when a call fails, and what it does when it has sent its
-- greeting. `inet_pton` fails with 0 too.
abbrev pub greet : (fail : Ending) (rest : Program Call) (client_fd : ℤ) → Program Call
greet fail rest client_fd = call inet_pton λ r.
    if positive r
    then (call (connect client_fd)
        λ r'. if negative r' then ends fail else call (send client_fd) λ sent. rest)
    else ends fail

-- `main` of tcp_server.c, which takes 0 for the failure of `socket`.
unfoldable pub tcp_server : Program Call
tcp_server = call socket λ server_fd.
    if nonzero server_fd then serve exit_failure exit_success server_fd else ends exit_failure

-- `main` of tcp_client.c.
unfoldable pub tcp_client : Program Call
tcp_client = call socket λ sock.
    if negative sock
    then ends (exits (negsuc 0))
    else greet (exits (negsuc 0)) (call (read sock) λ valread. ends exit_success) sock

-- The jobs of tcp_standalone.c. `create_socket` puts into `sock->fd` what `socket` returns.
unfoldable pub create_socket : Program Call
create_socket = call socket λ fd. ends (stored fd)

-- It frees its greeting, a string literal.
unfoldable pub socket_server : ℤ → Program Call
socket_server server_fd = serve goes_back undefined server_fd

-- It frees its greeting before it reads the answer.
unfoldable pub socket_client : ℤ → Program Call
socket_client client_fd = greet goes_back (ends undefined) client_fd
