-- ===== src/LoadBalancer/Backend/Window.antt =====
-- The sliding window of latencies.
use rms_gate.Base.{
  ℕ, zero, suc, ◌+◌, ◌-◌, ◌≤◌, ◌<◌, ◌≡◌, refl, arith, List, [], ◌∷◌, ◌++◌, map, Option, none, some,
  length, length-append, ℤ, pos, ◌>>=◌, drop, ◌≤ℤ◌, ◌↔◌,
}
use Prim.Native.Nat.add
use mathlib.Core.List.{append_assoc, append-nil}
use rms_gate.LoadBalancer.Backend.{Backend, slice_from_1, record_latency, milliseconds}

-- The last `n` elements.
abbrev pub last_of {ℓ} : {A : Type ℓ} → ℕ → List A → List A
last_of n xs = drop (length xs - n) xs

-- A backend that sees the samples one after the other.
pub record_all : Backend → List ℕ → Option Backend
record_all b [] = some b
record_all b (l ∷ ls) = record_latency b l >>= λ b'. record_all b' ls

length-drop {ℓ} : {A : Type ℓ} (n : ℕ) (xs : List A) → length (drop n xs) ≡ length xs - n
length-drop zero xs = omega arith
length-drop (suc n) [] = omega arith
length-drop (suc n) (x ∷ xs) = omega (arith, length-drop n xs)

drop-append {ℓ} :
    {A : Type ℓ} (n : ℕ) (xs ys : List A) → n ≤ length xs → drop n (xs ++ ys) ≡ drop n xs ++ ys
drop-append zero xs ys h = refl
drop-append (suc n) [] ys h = absurd (omega arith)
drop-append (suc n) (x ∷ xs) ys h = drop-append n xs ys (omega arith)

-- One sample more: a window that is not full grows, a full one loses its oldest sample.
slice-drop {ℓ} :
    {A : Type ℓ} (n : ℕ) (xs : List A)
    → n < length xs
    → slice_from_1 (drop n xs) ≡ some (drop (suc n) xs)
unfolding slice_from_1
slice-drop n [] h = absurd (omega arith)
slice-drop zero (x ∷ xs) h = refl
slice-drop (suc n) (x ∷ xs) h = slice-drop n xs (omega arith)

drop-nil {ℓ} : {A : Type ℓ} (n : ℕ) → drop {A = A} n [] ≡ []
drop-nil zero = refl
drop-nil (suc n) = refl

drop-drop {ℓ} : {A : Type ℓ} (m n : ℕ) (xs : List A) → drop m (drop n xs) ≡ drop (n + m) xs
drop-drop m zero xs = ground arith
drop-drop {A} m (suc n) [] = ground (arith, drop-nil {A = A} m, drop-nil {A = A} (suc n + m))
drop-drop m (suc n) (x ∷ xs) = rw add.suc (drop-drop m n xs)

-- Cutting to the last `n` before more is added changes nothing after the next cut.
last_of-append {ℓ} :
    {A : Type ℓ} (n : ℕ) (xs ys : List A) → last_of n (last_of n xs ++ ys) ≡ last_of n (xs ++ ys)
last_of-append n xs ys =
    let k : ℕ = length xs - n in
    ground (
      arith,
      length-append (drop k xs) ys,
      length-append xs ys,
      length-drop k xs,
      drop-append k xs ys,
      drop-drop (length (drop k xs) + length ys - n) k (xs ++ ys),
    )

-- One sample: the window keeps its last `n`, and nothing else of the backend changes.
record_latency-last_of :
    (b : Backend) (n l : ℕ)
    → b.window_size ≡ pos (suc n)
    → length b.latency_window ≤ suc n
    → record_latency b l
      ≡ some (record b {
        latency_window = last_of (suc n) (b.latency_window ++ (milliseconds l ∷ []));
      })
unfolding record_latency
record_latency-last_of b n l size fits =
    let w = b.latency_window in
    let m = milliseconds l ∷ [] in
    ground (arith, size, slice-drop 0 w, drop-append 1 w m, length-append w m)

-- A whole run of samples.
pub record_all-last_of :
    (n : ℕ) (ls : List ℕ) (b : Backend)
    → b.window_size ≡ pos (suc n)
    → length b.latency_window ≤ suc n
    → record_all b ls
      ≡ some
          (record b { latency_window = last_of (suc n) (b.latency_window ++ map milliseconds ls) })
unfolding record_all
record_all-last_of n [] b size fits = ground (arith, append-nil b.latency_window)
record_all-last_of n (l ∷ ls) b size fits =
    let w = b.latency_window in
    let m = milliseconds l ∷ [] in
    let w' = last_of (suc n) (w ++ m) in
    ground (
      arith,
      record_latency-last_of b n l size fits,
      record_all-last_of n ls (record b { latency_window = w' }) size,
      length-drop (length (w ++ m) - suc n) (w ++ m),
      last_of-append (suc n) (w ++ m) (map milliseconds ls),
      append_assoc w m (map milliseconds ls),
    )

-- The panic: the window is empty and its size is not positive.
pub record_latency-none_iff :
    (b : Backend) (l : ℕ)
    → (record_latency b l ≡ none) ↔ ((b.latency_window ≡ []) × (b.window_size ≤ℤ pos 0))
unfolding record_latency
record_latency-none_iff b l = go b.latency_window b.window_size refl refl
  where
    go :
        (w : List ℕ) (n : ℤ)
        → b.latency_window ≡ w
        → b.window_size ≡ n
        → (record_latency b l ≡ none) ↔ ((b.latency_window ≡ []) × (b.window_size ≤ℤ pos 0))
    go [] n e d = ground arith
    go (x ∷ w) n e d = ground arith

-- Where it does not panic, `RecordLatency` changes the window alone.
pub record_latency-frame :
    (b b' : Backend) (l : ℕ)
    → record_latency b l ≡ some b'
    → b' ≡ record b { latency_window = b'.latency_window }
unfolding record_latency slice_from_1
record_latency-frame b b' l h = ground arith
