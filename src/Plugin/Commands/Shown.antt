-- ===== src/Plugin/Commands/Shown.antt =====
-- The scores that `/lb status` shows.
use rms_gate.Base.{
  ℕ, ◌+◌, String, ◌≡◌, refl, ap, ◌∙◌, inl, inr, false, Option, none, some, List, [], ◌∷◌, ◌++◌, map,
  foldl, Bool-cases, length, get_elem?, All, str_eq, str_eq_refl,
}
use rms_gate.Float64.{Floats}
use rms_gate.LoadBalancer.Backend.{Backend, is_available}
use rms_gate.LoadBalancer.Backend.Metrics.{avg_latency, jitter}
use rms_gate.LoadBalancer.History.{Cache}
use rms_gate.LoadBalancer.Strategy.{
  refs_from, filter_available, lower, least_positive, total_score, Environment, health_score_of,
}
use rms_gate.LoadBalancer.Server.{ServerInfo}
use rms_gate.LoadBalancer.Registry.{LoadBalancer, get_server, stats, get_server_stats}
use rms_gate.Plugin.Commands.{
  Report, least_shown, shown_minimum, shown_scores, report, cmd_lb_status,
}

nth-map_twice {ℓ} :
    {A B C : Type ℓ} (f : B → C) (g : A → B) (front back : List A) (a : A)
    → get_elem? (map f (map g (front ++ (a ∷ back)))) (length front) ≡ some (f (g a))
nth-map_twice f g [] back a = refl
nth-map_twice f g (x ∷ front) back a = nth-map_twice f g front back a

module _ (fl : Floats) where
  least_shown-foldl :
      (f : Backend → fl.Float) (m : fl.Float) (bs : List Backend) (i : ℕ)
      → least_shown fl f m bs
        ≡ foldl (λ m r. lower fl m (f r.target)) m (filter_available (refs_from i bs))
  unfolding least_shown filter_available refs_from
  least_shown-foldl f m [] i = refl
  least_shown-foldl f m (b ∷ bs) i = elim (Bool-cases (is_available b)) [
    | inl e ↦
        rw (e, least_shown, filter_available) (least_shown-foldl f (lower fl m (f b)) bs (i + 1))
    | inr e ↦ rw (e, least_shown, filter_available) (least_shown-foldl f m bs (i + 1))
  ]

  shown_minimum-least :
      (f : Backend → fl.Float) (bs : List Backend)
      → shown_minimum fl f bs ≡ least_positive fl f (filter_available (refs_from 0 bs))
  unfolding shown_minimum least_positive
  shown_minimum-least f bs = rw (least_shown-foldl f _ bs 0) refl

  shown_scores-total :
      (history : Option (Cache fl.Float)) (period : ℕ) (l j : fl.Float) (front back : List Backend)
      (b : Backend)
      → All (λ x. str_eq x.addr b.addr ≡ false) front
      → (shown_scores fl history period l j b.addr (front ++ (b ∷ back))).0
        ≡ total_score fl history period l j b
  unfolding shown_scores total_score
  shown_scores-total none period l j [] back b h = rw (str_eq_refl b.addr, shown_scores) refl
  shown_scores-total (some cache) period l j [] back b h =
      rw (str_eq_refl b.addr, shown_scores) refl
  shown_scores-total history period l j (x ∷ front) back b (n, h) =
      rw (n, shown_scores) (shown_scores-total history period l j front back b h)

  stats_of :
      {P : Type 0} (lb : LoadBalancer fl.Float P) (server : String) (s : ServerInfo fl.Float)
      → get_server lb server ≡ some s
      → get_server_stats fl lb server ≡ map (stats fl) s.backends
  unfolding get_server get_server_stats
  stats_of lb server s e = rw (e, get_server_stats) refl

  score_lem :
      (env : Environment fl.Float) (bs front back : List Backend) (b : Backend)
      → bs ≡ front ++ (b ∷ back)
      → All (λ x. str_eq x.addr b.addr ≡ false) front
      → (report fl env.history env.period bs (stats fl b)).score
        ≡ health_score_of fl env (filter_available (refs_from 0 bs)) b
  unfolding report health_score_of stats
  score_lem env bs front back b split first =
      let l = shown_minimum fl (avg_latency fl) bs in
      let j = shown_minimum fl (jitter fl) bs in
      ap (λ x. (shown_scores fl env.history env.period l j b.addr x).0) split
      ∙ shown_scores-total env.history env.period l j front back b first
      ∙ ap (λ l'. total_score fl env.history env.period l' j b)
          (shown_minimum-least (avg_latency fl) bs)
      ∙ ap
          (λ j'.
            total_score fl env.history env.period
              (least_positive fl (avg_latency fl) (filter_available (refs_from 0 bs))) j' b)
          (shown_minimum-least (jitter fl) bs)

  -- The score that `/lb status` shows of a backend, the first one of its server with its address,
  -- is the score by which the strategy health-score compares it with the server's other backends.
  pub cmd_lb_status-score :
      {P : Type 0} (env : Environment fl.Float) (lb : LoadBalancer fl.Float P) (server : String)
      (s : ServerInfo fl.Float) (front back : List Backend) (b : Backend)
      → get_server lb server ≡ some s
      → s.backends ≡ front ++ (b ∷ back)
      → All (λ x. str_eq x.addr b.addr ≡ false) front
      → (r : Report fl.Float) × (get_elem?
            (cmd_lb_status fl env.history env.period (some lb) server).1
            (length front)
          ≡ some r)
        × (r.about.stats_addr ≡ b.addr)
        × (r.score ≡ health_score_of fl env (filter_available (refs_from 0 s.backends)) b)
  unfolding cmd_lb_status report stats
  cmd_lb_status-score env lb server s front back b e split first =
      let shown = report fl env.history env.period s.backends in
      (
        shown (stats fl b),
        rw (e, cmd_lb_status)
            (ap (λ l. get_elem? (map shown l) (length front)) (stats_of lb server s e)
              ∙ ap (λ l. get_elem? (map shown (map (stats fl) l)) (length front)) split
              ∙ nth-map_twice shown (stats fl) front back b),
        refl,
        score_lem env s.backends front back b split first,
      )
