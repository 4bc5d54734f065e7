-- ===== src/LoadBalancer/Strategy/Turns.antt =====
-- The rotation of round-robin.
use rms_gate.Base.{
  ℕ, zero, suc, ◌+◌, ◌-◌, ◌*◌, ◌/◌, ◌%◌, ◌^◌, ◌<◌, ◌≡◌, refl, ap, ◌∙◌, inl, inr, some, List, [],
  ◌∷◌, arith, leb, if◌then◌else◌, Bool-cases, length, get_elem?,
}
use native.Mathlib.Nat.{mod-eq_of_lt, div-add-mod, mod-lt, mul-add-mod_self_left}
use rms_gate.Float64.{Floats}
use rms_gate.LoadBalancer.Strategy.{
  Ref, Strategy, round_robin, Environment, filter_available, select, after_select, at_index,
}

-- The strategy after `k` calls of `Select` over the same backends.
pub after_turns : ℕ → Strategy → List Ref → Strategy
after_turns zero s refs = s
after_turns (suc k) s refs = after_turns k (after_select s refs) refs

after_turns-counter :
    (k c : ℕ) (refs available : List Ref)
    → filter_available refs ≡ available
    → 0 < length available
    → c + k < 2 ^ 64
    → after_turns k (round_robin c) refs ≡ round_robin (c + k)
unfolding after_turns after_select
after_turns-counter zero c refs available e h b = ground arith
after_turns-counter (suc k) c refs [] e h b = absurd (omega arith)
after_turns-counter (suc k) c refs (x ∷ rs) e h b =
    rw (e, after_select)
      (ground (
        arith,
        after_turns-counter k (c + 1) refs (x ∷ rs) e h,
        mod-eq_of_lt {n = c + 1} {m = 2 ^ 64},
      ))

-- The number of turns until it is the turn of position `i` of `n`.
abbrev wait : ℕ → ℕ → ℕ → ℕ
wait c n i = let r = (c + 1) % n in if leb r i then i - r else i + n - r

-- `n` goes into `m` some number of times, with `i` left over.
mod-of_eq : (n q i m : ℕ) → i < n → m ≡ n * q + i → m % n ≡ i
mod-of_eq n q i m h e = rw e (mul-add-mod_self_left n q i ∙ mod-eq_of_lt h)

wait_lem : (c n i : ℕ) → i < n → (wait c n i < n) × ((c + wait c n i + 1) % n ≡ i)
wait_lem c n i h = elim (Bool-cases (leb ((c + 1) % n) i)) [
  | inl e ↦
      rw e (ground arith, mod-of_eq n ((c + 1) / n) i _ h (ground (arith, div-add-mod (c + 1) n)))
  | inr e ↦ rw e (
    ground arith,
    mod-of_eq n ((c + 1) / n + 1) i _ h
        (ground (arith, div-add-mod (c + 1) n, mod-lt (c + 1) {m = n})),
  )
]

get_elem?-at : (rs : List Ref) (i : ℕ) → i < length rs → (r : Ref) × (get_elem? rs i ≡ some r)
get_elem?-at [] i h = absurd (omega arith)
get_elem?-at (x ∷ rs) zero h = (x, refl)
get_elem?-at (x ∷ rs) (suc i) h = get_elem?-at rs i (omega arith)

module _ (fl : Floats) (env : Environment fl.Float) where
  select_turn :
      (c i : ℕ) (refs available : List Ref)
      → filter_available refs ≡ available
      → c + 1 < 2 ^ 64
      → 0 < length available
      → (c + 1) % length available ≡ i
      → select fl (round_robin c) env refs ≡ at_index available i
  unfolding select
  select_turn c i refs [] e b h m = absurd (omega arith)
  select_turn c i refs (x ∷ rs) e b h m =
      rw (e, select)
        (ap (at_index (x ∷ rs))
          (ap (λ (k : ℕ). k % length (x ∷ rs)) (mod-eq_of_lt {n = c + 1} {m = 2 ^ 64} b) ∙ m))

  -- While the same `n` backends are available, round-robin serves each of them within `n` calls.
  pub round_robin_turn :
      (c i : ℕ) (refs : List Ref)
      → let n = length (filter_available refs) in
        i < n
        → c + n < 2 ^ 64
        → (j : ℕ) × (r : Ref) × (j < n)
          × (get_elem? (filter_available refs) i ≡ some r)
          × (select fl (after_turns j (round_robin c) refs) env refs ≡ some (some r))
  round_robin_turn c i refs h b =
      let available = filter_available refs in
      let (soon, mine) = wait_lem c (length available) i h in
      let (r, found) = get_elem?-at available i h in
      let k = wait c (length available) i in
      let turn = select_turn (c + k) i refs available refl (omega arith) (omega arith) mine in
      (
        k,
        r,
        soon,
        found,
        rw (after_turns-counter k c refs available refl (omega arith) (omega arith))
            (ground (arith, turn, found)),
      )
