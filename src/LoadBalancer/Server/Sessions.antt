-- ===== src/LoadBalancer/Server/Sessions.antt =====
-- A connection that is handed out and closed.
use rms_gate.Base.{
  ℕ, ◌<◌, String, ◌≡◌, refl, sym, ap, ◌∙◌, true, false, Option, none, some, List, arith,
  >>=-eq-some, get_elem?, set, get_elem?-set_self, set_twice, lt-length_of_get_elem?, two_32,
  str_eq_refl, contains, add_name, remove_name,
}
use rms_gate.LoadBalancer.Backend.{
  Backend, record_latency, record_success, add_player, remove_player,
}
use rms_gate.LoadBalancer.Backend.Window.{record_latency-frame}
use rms_gate.LoadBalancer.Server.{
  ServerInfo, TrackedConn, dialled, dial_succeeded, dial_finish, store, close,
}

-- A player that is nil is counted under the name "".
abbrev pub name_of : Option String → String
name_of player = elim player [ none ↦ "" | some n ↦ n ]

succeeded :
    (b b' : Backend) (player : Option String) (l : ℕ)
    → dial_succeeded b player l ≡ some b'
    → b'
      ≡ add_player
          (record b { fail_count = 0; latency_window = b'.latency_window })
          (name_of player)
unfolding dial_succeeded record_success add_player
succeeded b b' player l h =
    let (c, e, k) = >>=-eq-some (record_latency (record_success b) l) _ b' h in
    ground (arith, k, record_latency-frame (record_success b) c l e)

add-remove :
    (b : Backend) (name : String)
    → contains name b.players ≡ false
    → b.current_conns < two_32
    → remove_player (add_player b name) name ≡ b
unfolding add_player remove_player add_name remove_name contains
add-remove b name new small = ground (arith, str_eq_refl name)

module _ {F : Type 0} where
  handed_out :
      (s s1 : ServerInfo F) (p l : ℕ) (player : Option String) (c : Option TrackedConn)
      (b : Backend)
      → get_elem? s.backends p ≡ some b
      → dial_finish s p player (dialled l) ≡ some (s1, c)
      → (b' : Backend) × (dial_succeeded b player l ≡ some b')
        × (s1 ≡ store s p b')
        × (c ≡ some (record { backend = p; player_name = name_of player; closed = false }))
  unfolding dial_finish
  handed_out s s1 p l player c b g h =
      let h1 = rw (g, dial_finish) at h in
      let (b', e, k) = >>=-eq-some (dial_succeeded b player l) _ (s1, c) h1 in
      (b', e, ground (arith, k), ground (arith, k))

  close_found :
      (s : ServerInfo F) (c : TrackedConn) (b : Backend)
      → c.closed ≡ false
      → get_elem? s.backends c.backend ≡ some b
      → close s c ≡ (store s c.backend (remove_player b c.player_name), record c { closed = true })
  unfolding close
  close_found s c b open_yet g = rw (open_yet, close) (rw (g, close) refl)

  close_again :
      (s s' : ServerInfo F) (c : TrackedConn)
      → close s' (record c { closed = true }) ≡ (s', record c { closed = true })
  unfolding close
  close_again s s' c = refl

  -- A player who was not connected dials and closes the connection: the backend is as before, up to
  -- its failures and latencies, no other backend changes, and a second close does nothing.
  pub dial-close :
      (s s1 : ServerInfo F) (p l : ℕ) (player : Option String) (c : TrackedConn) (b : Backend)
      → get_elem? s.backends p ≡ some b
      → contains (name_of player) b.players ≡ false
      → b.current_conns < two_32
      → dial_finish s p player (dialled l) ≡ some (s1, some c)
      → let r = close s1 c in
        (w : List ℕ) × (r.0.backends
          ≡ set s.backends p (record b { fail_count = 0; latency_window = w }))
        × (close r.0 r.1 ≡ r)
  unfolding store
  dial-close s s1 p l player c b g new small h =
      let (b1, e, q, k) = handed_out s s1 p l player (some c) b g h in
      let name : String = name_of player in
      let c1 : TrackedConn = record { backend = p; player_name = name; closed = false } in
      let b0 : Backend = record b { fail_count = 0; latency_window = b1.latency_window } in
      let back : remove_player b1 name ≡ b0 =
        ap (λ x. remove_player x name) (succeeded b b1 player l e) ∙ add-remove b0 name new small in
      let g1 = get_elem?-set_self s.backends p b1 (lt-length_of_get_elem? s.backends p b g) in
      let shut = close_found (store s p b1) c1 b1 refl g1 in
      let same : c ≡ c1 = ground (arith, k) in
      let after : ServerInfo F = store (store s p b1) p b0 in
      let whole : close s1 c ≡ (after, record c1 { closed = true }) =
        ap (λ x. close x c) q
        ∙ ap (λ x. close (store s p b1) x) same
        ∙ shut
        ∙ ap (λ x. (store (store s p b1) p x, record c1 { closed = true })) back in
      (
        b1.latency_window,
        ap (λ r. r.0.backends) whole ∙ set_twice s.backends p b1 b0,
        ap (λ r. close r.0 r.1) whole ∙ close_again s after c1 ∙ sym whole,
      )
