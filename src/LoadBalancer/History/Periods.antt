-- ===== src/LoadBalancer/History/Periods.antt =====
-- The 96 quarters of an hour of a day, and their labels.
use rms_gate.Base.{ℕ, ◌+◌, ◌*◌, ◌/◌, ◌%◌, ◌<◌, ◌≡◌, ◌↔◌, List, ◌∷◌, ◌++◌, arith, take, drop, pos}
use rms_gate.LoadBalancer.History.{get_period_index, period_label_from_index, two_digits}

-- The index of a time of day lies below 96, and two times share it if and only if they lie in the
-- same quarter of the same hour.
get_period_index_iff :
    (h m h' m' : ℕ)
    → h < 24
    → m < 60
    → h' < 24
    → m' < 60
    → (get_period_index h m < 96)
      × ((get_period_index h m ≡ get_period_index h' m') ↔ ((h ≡ h') × (m / 15 ≡ m' / 15)))
unfolding get_period_index
get_period_index_iff h m h' m' a b c d =
    (omega arith, ((λ e. (omega arith, omega arith)), λ p. omega (arith, p.0, p.1)))

-- The first five bytes of a label, "HH:MM", and its last five.
abbrev pub starts_at : List ℕ → List ℕ
starts_at = take 5

abbrev pub ends_at : List ℕ → List ℕ
ends_at = drop 6

-- The label of an index is the time at which its quarter starts, in two digits each, a dash, and
-- the time at which the next quarter of the day starts, the first one again after the last.
period_label_lem :
    (i : ℕ)
    → i < 96
    → let label = period_label_from_index (pos i) in
      (label ≡ starts_at label ++ (b'-' ∷ ends_at label))
      × (starts_at label ≡ two_digits (i / 4) ++ (b':' ∷ two_digits (i % 4 * 15)))
      × (ends_at label ≡ starts_at (period_label_from_index (pos ((i + 1) % 96))))
unfolding period_label_from_index
period_label_lem i h = ground arith
