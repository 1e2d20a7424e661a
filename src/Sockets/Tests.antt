-- ===== src/Sockets/Tests.antt =====
-- The socket programs with concrete answers of the system.
use c_playground.Prelude.{◌≡◌, refl, inl, true, some, List, [], ◌∷◌, ℕ_discrete}
use c_playground.Machine.{ℤ, pos}
use c_playground.Calls.{exit_success, Follows, made, ending}
use c_playground.Sockets.{
  tcp_server, tcp_client, socket, setsockopt, bind, listen, create_socket, socket_server,
}
use c_playground.Sockets.Protocol.{no_sockets, allowed, protocol}
use c_playground.Sockets.Laws.{tcp_client-Follows}
use c_playground.Sockets.Standalone.{
  System, Step, by_server, by_client, waited, Reach, start, later,
}
use c_playground.Sockets.Standalone.Laws.{standalone-allowed}

abbrev zero_int : ℤ
zero_int = pos 0

-- `bind`, `listen`, `accept`, `read` and `send` succeed.
abbrev answers : List ℤ
answers = zero_int ∷ zero_int ∷ pos 4 ∷ pos 18 ∷ pos 17 ∷ []

served : ending tcp_server (pos 3 ∷ zero_int ∷ answers) ≡ some exit_success
unfolding tcp_server
served = refl

greeted : ending tcp_client (pos 3 ∷ pos 1 ∷ answers) ≡ some exit_success
unfolding tcp_client
greeted = refl

tcp_client-Follows_example : Follows protocol no_sockets (made tcp_client (pos 3 ∷ pos 1 ∷ answers))
tcp_client-Follows_example = tcp_client-Follows (pos 3 ∷ pos 1 ∷ answers)

record Run : Type 0 where
  last : System
  reach : Reach last

next : (r : Run) {s : System} → Step r.last s → Run
next r step = record { last = _; reach = later r.reach step }

-- Both jobs have their sockets, 3 and 5, and the server's has bound its own.
bound_at : Run
unfolding next create_socket socket_server ℕ_discrete
bound_at =
    next
      (next
        (next
          (next (next (record { last = _; reach = start }) (by_server socket (pos 3) refl refl))
            (by_client socket (pos 5) refl refl))
          (waited (pos 3) (pos 5) refl refl))
        (by_server (setsockopt (pos 3)) zero_int refl tt))
      (by_server (bind (pos 3)) zero_int refl tt)

standalone-allowed_example : allowed (listen (pos 3)) bound_at.last.sockets ≡ true
unfolding bound_at
standalone-allowed_example = standalone-allowed bound_at.reach refl (listen (pos 3)) _ (inl refl)
