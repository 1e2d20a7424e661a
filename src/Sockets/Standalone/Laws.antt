-- ===== src/Sockets/Standalone/Laws.antt =====
-- The two jobs of tcp_standalone.c beside each other.
use c_playground.Prelude.{
  ℕ, ◌≡◌, refl, ◌∙◌, subst, ◌⊎◌, inl, inr, Bool, true, false, ◌||◌, Option, none, some,
  if◌then◌else◌, update-same, update-other, ℕ_discrete,
}
use c_playground.Machine.{ℤ, pos, negsuc}
use c_playground.Calls.{
  Ending, exits, goes_back, stored, undefined, Program, ends, call, negative, Safe, EndsBy,
}
use c_playground.Sockets.{
  Call, socket, setsockopt, bind, listen, accept, inet_pton, connect, read, send, serve, greet,
  create_socket, socket_server, socket_client,
}
use c_playground.Sockets.Protocol.{
  Stage, fresh, Table, no_sockets, stage, is_open, is_fresh, is_bound, is_listening, is_connected,
  allowed, change, apply, protocol,
}
use c_playground.Sockets.Laws.{serve-Safe, greet-Safe, serve-EndsBy, greet-EndsBy, is_send}
use c_playground.Sockets.Standalone.{
  System, Returns, refuses, Step, by_server, by_client, waited, Reach, start, later,
}

-- A job that only makes allowed calls on the sockets of its own, as long as `socket` does not fail,
-- and that stores a fresh one.
abbrev Good : Program Call → Table → Type 0
Good (ends (stored (pos n))) own = own n ≡ some fresh
Good (ends (stored (negsuc n))) own = ⊥
Good (ends (exits x)) own = Unit
Good (ends goes_back) own = Unit
Good (ends undefined) own = Unit
Good (call c k) own =
    (allowed c own ≡ true) × ((r : ℤ) → refuses c r ≡ false → Good (k r) (protocol.after c r own))

unstored :
    (sent : Bool) (e : Ending) (own : Table)
    → e ≡ (if sent then undefined else goes_back)
    → Good (ends e) own
unstored true e own m = rw m tt
unstored false e own m = rw m tt

Safe-Good :
    (p : Program Call) (own : Table) (sent : Bool)
    → Safe protocol p own
    → EndsBy is_send undefined goes_back p sent
    → Good p own
Safe-Good (ends e) own sent safe m = unstored sent e own m
Safe-Good (call c k) own sent (ok, safe) m =
    (ok, λ r e. Safe-Good (k r) (protocol.after c r own) (sent || is_send c r) (safe r) (m r))

create_socket-Good : Good create_socket no_sockets
unfolding create_socket
create_socket-Good = (refl, stores)
  where
    stores :
        (r : ℤ) → negative r ≡ false → Good (ends (stored r)) (protocol.after socket r no_sockets)
    stores (pos n) e = update-same no_sockets n (some fresh)
    stores (negsuc n) e = absurd cc

-- Each open socket is that of the one job or of the other.
abbrev Split : (own other all : Table) → Type 0
Split own other all =
    (n : ℕ) → ((own n ≡ none) × (other n ≡ all n)) ⊎ ((other n ≡ none) × (own n ≡ all n))

swap : {own other all : Table} → Split own other all → Split other own all
swap split n = elim (split n) [ inl h ↦ inr h | inr h ↦ inl h ]

none-test :
    (own : Option Stage) (test : Option Stage → Bool)
    → test none ≡ false
    → own ≡ none
    → test own ≡ true
    → ⊥
none-test own test e empty ok = let no_stage : test own ≡ false = rw (empty, e) refl in cc

module _ {own other all : Table} (split : Split own other all) where
  -- A socket that passes a test in the table of its job.
  mine :
      (n : ℕ) (test : Option Stage → Bool)
      → test none ≡ false
      → test (own n) ≡ true
      → (other n ≡ none) × (own n ≡ all n)
  mine n test e ok = elim (split n) [ inl h ↦ absurd (none-test (own n) test e h.0 ok) | inr h ↦ h ]

  fits :
      (n : ℕ) (test : Option Stage → Bool)
      → test none ≡ false
      → test (own n) ≡ true
      → test (all n) ≡ true
  fits n test e ok = subst (λ s. test s ≡ true) (mine n test e ok).1 ok

  fits_at :
      (fd : ℤ) (test : Option Stage → Bool)
      → test none ≡ false
      → test (stage fd own) ≡ true
      → test (stage fd all) ≡ true
  fits_at (pos n) test e ok = fits n test e ok
  fits_at (negsuc n) test e ok = ok

  -- What a job may do on its own sockets it may do on all.
  allowed-all : (c : Call) → allowed c own ≡ true → allowed c all ≡ true
  allowed-all socket ok = refl
  allowed-all (setsockopt fd) ok = fits_at fd is_open refl ok
  allowed-all (bind fd) ok = fits_at fd is_fresh refl ok
  allowed-all (listen fd) ok = fits_at fd is_bound refl ok
  allowed-all (accept fd) ok = fits_at fd is_listening refl ok
  allowed-all inet_pton ok = refl
  allowed-all (connect fd) ok = fits_at fd is_fresh refl ok
  allowed-all (read fd) ok = fits_at fd is_connected refl ok
  allowed-all (send fd) ok = fits_at fd is_connected refl ok

  unused : (n : ℕ) → all n ≡ none → other n ≡ none
  unused n new = elim (split n) [ inl h ↦ h.1 ∙ new | inr h ↦ h.0 ]

  -- The socket that a call changes is none of the other job.
  abbrev Free : Option (ℕ × Stage) → Type 0
  Free none = Unit
  Free (some (n, s)) = other n ≡ none

  change-Free : (c : Call) (r : ℤ) → allowed c own ≡ true → Returns c r all → Free (change c r)
  change-Free socket (pos n) ok new = unused n new
  change-Free socket (negsuc n) ok new = tt
  change-Free (setsockopt fd) r ok new = tt
  change-Free (bind (pos n)) (pos x) ok new = (mine n is_fresh refl ok).0
  change-Free (bind (pos n)) (negsuc x) ok new = tt
  change-Free (bind (negsuc n)) r ok new = tt
  change-Free (listen (pos n)) (pos x) ok new = (mine n is_bound refl ok).0
  change-Free (listen (pos n)) (negsuc x) ok new = tt
  change-Free (listen (negsuc n)) r ok new = tt
  change-Free (accept fd) (pos n) ok new = unused n new
  change-Free (accept fd) (negsuc n) ok new = tt
  change-Free inet_pton r ok new = tt
  change-Free (connect (pos n)) (pos x) ok new = (mine n is_fresh refl ok).0
  change-Free (connect (pos n)) (negsuc x) ok new = tt
  change-Free (connect (negsuc n)) r ok new = tt
  change-Free (read fd) r ok new = tt
  change-Free (send fd) r ok new = tt

  apply-Split : (o : Option (ℕ × Stage)) → Free o → Split (apply o own) other (apply o all)
  apply-Split none free n = split n
  apply-Split (some (m, s)) free n = elim (ℕ_discrete n m) [
    | yes e ↦ inr (rw e free, rw (e, update-same own m (some s), update-same all m (some s)) refl)
    | no ne ↦ rw (update-other own m (some s) n ne, update-other all m (some s) n ne) (split n)
  ]

  after-Split :
      (c : Call) (r : ℤ)
      → allowed c own ≡ true
      → Returns c r all
      → Split (protocol.after c r own) other (protocol.after c r all)
  after-Split c r ok new = apply-Split (change c r) (change-Free c r ok new)

record Inv (s : System) : Type 0 where
  of_server : Table
  of_client : Table
  server : Good s.server of_server
  client : Good s.client of_client
  split : Split of_server of_client s.sockets

or_false : (a b : Bool) → (a || b) ≡ false → (a ≡ false) × (b ≡ false)
or_false false false e = (refl, refl)
or_false false true e = absurd (cc)
or_false true b e = absurd (cc)

-- The job that is given what `create_socket` has stored.
next_server : (fd : ℤ) (own : Table) → Good (ends (stored fd)) own → Good (socket_server fd) own
unfolding socket_server
next_server (pos n) own e =
    Safe-Good (serve goes_back undefined (pos n)) own false (serve-Safe goes_back undefined n own e)
      (serve-EndsBy goes_back undefined (pos n))
next_server (negsuc n) own h = absurd h

next_client : (fd : ℤ) (own : Table) → Good (ends (stored fd)) own → Good (socket_client fd) own
unfolding socket_client
next_client (pos n) own e =
    Safe-Good (greet goes_back (ends undefined) (pos n)) own false
      (greet-Safe goes_back (ends undefined) n own e tt) (greet-EndsBy goes_back undefined (pos n))
next_client (negsuc n) own h = absurd h

Step-Inv : {s t : System} → Step s t → t.refused ≡ false → (s.refused ≡ false → Inv s) → Inv t
Step-Inv {s} (by_server c r at new) none_refused before =
    let e = or_false s.refused (refuses c r) none_refused in
    let inv = before e.0 in
    let good = subst (λ p. Good p inv.of_server) at inv.server in
    record {
      of_server = protocol.after c r inv.of_server;
      of_client = inv.of_client;
      server = good.1 r e.1;
      client = inv.client;
      split = after-Split inv.split c r good.0 new;
    }
Step-Inv {s} (by_client c r at new) none_refused before =
    let e = or_false s.refused (refuses c r) none_refused in
    let inv = before e.0 in
    let good = subst (λ p. Good p inv.of_client) at inv.client in
    record {
      of_server = inv.of_server;
      of_client = protocol.after c r inv.of_client;
      server = inv.server;
      client = good.1 r e.1;
      split = swap (after-Split (swap inv.split) c r good.0 new);
    }
Step-Inv (waited fd fd' at at') none_refused before =
    let inv = before none_refused in
    record {
      of_server = inv.of_server;
      of_client = inv.of_client;
      server = next_server fd inv.of_server (subst (λ p. Good p inv.of_server) at inv.server);
      client = next_client fd' inv.of_client (subst (λ p. Good p inv.of_client) at' inv.client);
      split = inv.split;
    }

Reach-Inv : {s : System} → Reach s → s.refused ≡ false → Inv s
Reach-Inv start e = record {
  of_server = no_sockets;
  of_client = no_sockets;
  server = create_socket-Good;
  client = create_socket-Good;
  split = λ n. inl (refl, refl);
}
Reach-Inv (later r step) e = Step-Inv step e (Reach-Inv r)

-- When no `socket` has failed: whatever the other calls return, and in whatever order the two jobs make
-- theirs, the next call of each job is allowed on the sockets as they are.
pub standalone-allowed :
    {s : System}
    → Reach s
    → s.refused ≡ false
    → (c : Call) (k : ℤ → Program Call) → (s.server ≡ call c k) ⊎ (s.client ≡ call c k)
    → allowed c s.sockets ≡ true
standalone-allowed r e c k (inl at) =
    let inv = Reach-Inv r e in
    let good = subst (λ p. Good p inv.of_server) at inv.server in allowed-all inv.split c good.0
standalone-allowed r e c k (inr at) =
    let inv = Reach-Inv r e in
    let good = subst (λ p. Good p inv.of_client) at inv.client in
    allowed-all (swap inv.split) c good.0
