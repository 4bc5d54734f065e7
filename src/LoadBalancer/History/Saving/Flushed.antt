-- ===== src/LoadBalancer/History/Saving/Flushed.antt =====
-- The database once every row that was read is committed.
use rms_gate.Base.{
  ℕ, String, ◌≡◌, refl, sym, ◌∙◌, inl, inr, true, false, List, [], ◌∷◌, ◌++◌, arith, Bool-cases,
  All, pos, eq_pos, str_eq_iff,
}
use rms_gate.Float64.{Floats}
use rms_gate.LoadBalancer.History.{Row}
use rms_gate.LoadBalancer.History.Saving.{Database, save_period_stats, same_slot}
use rms_gate.LoadBalancer.History.Saving.Rows.{names, row_for, Keeps}

module _ (fl : Floats) {D : Type 0} (base : Database fl D) where
  unfoldable pub flushed : D → List (Row fl) → D
  flushed db [] = db
  flushed db (r ∷ rs) = flushed (save_period_stats fl base db r) rs

  pub flushed-append :
      (db : D) (xs ys : List (Row fl)) → flushed db (xs ++ ys) ≡ flushed (flushed db xs) ys
  unfolding flushed
  flushed-append db [] ys = refl
  flushed-append db (x ∷ xs) ys = flushed-append (save_period_stats fl base db x) xs ys

  pub row_for-flushed :
      Keeps fl base
      → (db : D) (rs : List (Row fl)) (addr : String) (i : ℕ)
      → All (λ r. names fl r addr i ≡ false) rs
      → row_for fl (base.select (flushed db rs)) addr i ≡ row_for fl (base.select db) addr i
  unfolding flushed save_period_stats
  row_for-flushed keeps db [] addr i clear = refl
  row_for-flushed keeps db (r ∷ rs) addr i (other, clear) =
      row_for-flushed keeps (save_period_stats fl base db r) rs addr i clear
      ∙ keeps db r addr i
      ∙ rw other refl

  -- What a slot holds after all commits depends on what it held before.
  flushed-same :
      Keeps fl base
      → (db db' : D) (rs : List (Row fl)) (addr : String) (i : ℕ)
      → row_for fl (base.select db) addr i ≡ row_for fl (base.select db') addr i
      → row_for fl (base.select (flushed db rs)) addr i
        ≡ row_for fl (base.select (flushed db' rs)) addr i
  unfolding flushed save_period_stats
  flushed-same keeps db db' [] addr i e = e
  flushed-same keeps db db' (r ∷ rs) addr i e =
      flushed-same keeps (save_period_stats fl base db r) (save_period_stats fl base db' r) rs addr
        i (keeps db r addr i ∙ rw e refl ∙ sym (keeps db' r addr i))

  names-apart :
      (x r : Row fl) (addr : String) (i : ℕ)
      → same_slot fl x r ≡ false
      → names fl r addr i ≡ true
      → names fl x addr i ≡ false
  names-apart x r addr i apart mine = elim (Bool-cases (names fl x addr i)) [
    | inr e ↦ e
    | inl e ↦
        let a : x.row_index ≡ pos i = eq_pos x.row_index i (ground (arith, e)) in
        let b : r.row_index ≡ pos i = eq_pos r.row_index i (ground (arith, mine)) in
        ground (
          arith,
          apart,
          e,
          mine,
          a,
          b,
          str_eq_iff x.backend_addr addr,
          str_eq_iff r.backend_addr addr,
          str_eq_iff x.backend_addr r.backend_addr,
        )
  ]

  swapped :
      Keeps fl base
      → (db : D) (x r : Row fl) (addr : String) (i : ℕ) → same_slot fl x r ≡ false
      → row_for fl (base.select (base.replace (base.replace db r) x)) addr i
        ≡ row_for fl (base.select (base.replace (base.replace db x) r)) addr i
  swapped keeps db x r addr i apart = ground (
    arith,
    keeps (base.replace db r) x addr i,
    keeps db r addr i,
    keeps (base.replace db x) r addr i,
    keeps db x addr i,
    names-apart x r addr i apart,
  )

  -- A row that is committed before others of other slots.
  pub row_for-committed :
      Keeps fl base
      → (db : D) (front back : List (Row fl)) (r : Row fl) (addr : String) (i : ℕ)
      → All (λ x. same_slot fl x r ≡ false) front
      → row_for fl (base.select (flushed (save_period_stats fl base db r) (front ++ back))) addr i
        ≡ row_for fl (base.select (flushed db (front ++ (r ∷ back)))) addr i
  unfolding flushed save_period_stats
  row_for-committed keeps db [] back r addr i first = refl
  row_for-committed keeps db (x ∷ front) back r addr i (apart, first) =
      flushed-same keeps _ _ (front ++ back) addr i (swapped keeps db x r addr i apart)
      ∙ row_for-committed keeps (base.replace db x) front back r addr i first
