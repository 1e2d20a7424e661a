-- ===== src/Sockets/Laws.antt =====
-- The socket programs of Linux/Socket one by one: the order of their calls, and how they end.
use c_playground.Prelude.{
  ℕ, zero, suc, ◌≡◌, ◌↔◌, refl, Bool, true, false, some, List, [], ◌∷◌, if◌then◌else◌, update,
  update-same,
}
use c_playground.Machine.{ℤ, pos, negsuc}
use c_playground.Calls.{
  Ending, exits, exit_success, exit_failure, goes_back, undefined, Program, ends, call, made,
  ending, negative, nonzero, positive, Follows, Safe, Safe-Follows, EndsBy, either, ending-EndsBy,
  some_marked,
}
use c_playground.Sockets.{
  Call, read, send, serve, greet, tcp_server, tcp_client, socket_server, socket_client,
}
use c_playground.Sockets.Protocol.{
  Stage, fresh, bound, listening, connected, Table, no_sockets, moved, apply, protocol,
}

-- Behind the test of a call that moves a descriptor to a stage.
tested :
    (fail : Ending) (p : Program Call) (n : ℕ) (s : Stage) (r : ℤ) (t : Table)
    → Safe protocol p (update t n (some s))
    → Safe protocol (if negative r then ends fail else p) (apply (moved (pos n) s r) t)
tested fail p n s (pos m) t safe = safe
tested fail p n s (negsuc m) t safe = tt

-- Behind the test of a call that returns a descriptor.
opened :
    (fail : Ending) (p : ℤ → Program Call) (s : Stage) (r : ℤ) (t : Table)
    → ((m : ℕ) → Safe protocol (p (pos m)) (update t m (some s)))
    → Safe protocol (if negative r then ends fail else p r) (apply (moved r s r) t)
opened fail p s (pos m) t safe = safe m
opened fail p s (negsuc m) t safe = tt

configured :
    (fail : Ending) (p : Program Call) (r : ℤ) (t : Table)
    → Safe protocol p t
    → Safe protocol (if nonzero r then ends fail else p) t
configured fail p (pos zero) t safe = safe
configured fail p (pos (suc m)) t safe = tt
configured fail p (negsuc m) t safe = tt

addressed :
    (fail : Ending) (p : Program Call) (r : ℤ) (t : Table)
    → Safe protocol p t
    → Safe protocol (if positive r then p else ends fail) t
addressed fail p (pos zero) t safe = tt
addressed fail p (pos (suc m)) t safe = safe
addressed fail p (negsuc m) t safe = tt

pub serve-Safe :
    (fail done : Ending) (n : ℕ) (t : Table)
    → t n ≡ some fresh
    → Safe protocol (serve fail done (pos n)) t
serve-Safe fail done n t e = (
  rw e refl,
  λ r. configured fail _ r t (
    rw e refl,
    λ r. tested fail _ n bound r t (
      rw update-same refl,
      λ r. tested fail _ n listening r _ (
        rw update-same refl,
        λ r.
            opened fail (λ c. call (read c) λ x. call (send c) λ y. ends done) connected r _
              λ m. (rw update-same refl, λ r. (rw update-same refl, λ r. tt)),
      ),
    ),
  ),
)

pub greet-Safe :
    (fail : Ending) (rest : Program Call) (n : ℕ) (t : Table)
    → t n ≡ some fresh
    → Safe protocol rest (update t n (some connected))
    → Safe protocol (greet fail rest (pos n)) t
greet-Safe fail rest n t e safe = (
  refl,
  λ r.
      addressed fail _ r t
        (rw e refl, λ r. tested fail _ n connected r t (rw update-same refl, λ r. safe)),
)

-- Whatever `socket` returns, and for any answers of the other calls: the calls of tcp_server.c's `main`
-- are allowed where it makes them exactly when `socket` did not fail. A failure is missed, since it is
-- not 0, and `setsockopt` is called with it.
pub tcp_server-Follows :
    (r r' : ℤ) (answers : List ℤ)
    → Follows protocol no_sockets (made tcp_server (r ∷ r' ∷ answers)) ↔ (negative r ≡ false)
unfolding tcp_server
tcp_server-Follows (pos zero) r' answers = (λ f. refl, λ e. (refl, tt))
tcp_server-Follows (pos (suc n)) r' answers = (
  λ f. refl,
  λ e. (
    refl,
    Safe-Follows protocol (serve exit_failure exit_success (pos (suc n))) _ (r' ∷ answers)
        (serve-Safe _ _ (suc n) _ (update-same no_sockets (suc n) (some fresh))),
  ),
)
tcp_server-Follows (negsuc n) r' answers = (λ f. absurd cc, λ e. absurd (cc))

-- For all answers, the calls of tcp_client.c's `main` are allowed where it makes them.
pub tcp_client-Follows : (answers : List ℤ) → Follows protocol no_sockets (made tcp_client answers)
unfolding tcp_client
tcp_client-Follows [] = tt
tcp_client-Follows (negsuc n ∷ answers) = (refl, tt)
tcp_client-Follows (pos n ∷ answers) = (
  refl,
  Safe-Follows protocol
      (greet (exits (negsuc 0)) (call (read (pos n)) λ valread. ends exit_success) (pos n)) _
      answers
      (greet-Safe _ _ n _ (update-same no_sockets n (some fresh)) (rw update-same refl, λ r. tt)),
)

-- The greeting is sent.
abbrev pub is_send : Call → ℤ → Bool
is_send (send fd) r = true
is_send _ r = false

abbrev pub sends : List (Call × ℤ) → Bool
sends calls = some_marked is_send calls

module _ (fail done : Ending) where
  -- They end with `done` if they have sent their greeting, else with `fail`.
  pub serve-EndsBy : (fd : ℤ) → EndsBy is_send done fail (serve fail done fd) false
  serve-EndsBy fd r = split (nonzero r) _ refl λ r.
      split (negative r) _ refl
        λ r. split (negative r) _ refl λ r. split (negative r) _ refl λ r r'. refl
    where
      split :
          (b : Bool) (q : Program Call)
          → EndsBy is_send done fail (ends fail) false
          → EndsBy is_send done fail q false
          → EndsBy is_send done fail (if b then ends fail else q) false
      split b q h k = either is_send done fail b false (ends fail) q h k

  pub greet-EndsBy : (fd : ℤ) → EndsBy is_send done fail (greet fail (ends done) fd) false
  greet-EndsBy fd r =
      either is_send done fail (positive r) false _ _
        (λ r. either is_send done fail (negative r) false _ _ refl λ r. refl) refl

-- Whatever the calls return: each of the two jobs of tcp_standalone.c that ends goes back to its
-- worker, unless it has sent its greeting; then it frees a string literal, which is undefined.
pub jobs_end :
    (fd fd' : ℤ) (answers answers' : List ℤ) (e e' : Ending)
    → ending (socket_server fd) answers ≡ some e
    → ending (socket_client fd') answers' ≡ some e'
    → (e ≡ (if sends (made (socket_server fd) answers) then undefined else goes_back))
      × (e' ≡ (if sends (made (socket_client fd') answers') then undefined else goes_back))
unfolding socket_server socket_client
jobs_end fd fd' answers answers' e e' h h' = (
  ending-EndsBy is_send undefined goes_back (serve goes_back undefined fd) false answers e
      (serve-EndsBy goes_back undefined fd) h,
  ending-EndsBy is_send undefined goes_back (greet goes_back (ends undefined) fd') false answers' e'
      (greet-EndsBy goes_back undefined fd') h',
)
