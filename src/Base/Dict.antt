-- ===== src/Base/Dict.antt =====
-- Go maps keyed by strings, as association lists, and sets of strings as lists.
use Prim.Native.Nat.{suc}
use Prim.Native.String.{String}
use text.Mathlib.Text.{◌==◌ as text_eq}
use text.Mathlib.TextEquality.{eq_iff}
use mathlib.Core.Path.{◌≡◌, refl, ap, ◌∙◌}
use mathlib.Core.Logic.{◌↔◌}
use mathlib.Core.Bool.{Bool, true, false, ◌||◌}
use mathlib.Core.List.{List, [], ◌∷◌}
use mathlib.Core.Option.{Option, none, some}
use native.Mathlib.Omega.{arith}
use rms_gate.Base.Tests.{if◌then◌else◌}
use rms_gate.Base.Lists.{length}

-- `a == b` on Go strings.
unfoldable pub str_eq : String → String → Bool
str_eq a b = text_eq a b

pub str_eq_iff : (a b : String) → (str_eq a b ≡ true) ↔ (a ≡ b)
unfolding str_eq
str_eq_iff a b = eq_iff a b

pub str_eq_refl : (a : String) → str_eq a a ≡ true
str_eq_refl a = (str_eq_iff a a).1 refl

module _ {ℓ} {V : Type ℓ} where
  unfoldable pub lookup : String → List (String × V) → Option V
  lookup k [] = none
  lookup k ((j, v) ∷ m) = if str_eq j k then some v else lookup k m

  -- `m[k] = v`
  unfoldable pub insert : String → V → List (String × V) → List (String × V)
  insert k v [] = (k, v) ∷ []
  insert k v ((j, w) ∷ m) = if str_eq j k then (k, v) ∷ m else (j, w) ∷ insert k v m

  -- `delete(m, k)`
  unfoldable pub delete : String → List (String × V) → List (String × V)
  delete k [] = []
  delete k ((j, w) ∷ m) = let rest = delete k m in if str_eq j k then rest else (j, w) ∷ rest

  pub lookup-insert :
      (k j : String) (v : V) (m : List (String × V))
      → lookup j (insert k v m) ≡ (if str_eq k j then some v else lookup j m)
  unfolding lookup insert
  lookup-insert k j v [] = refl
  lookup-insert k j v ((i, w) ∷ m) =
      ground (arith, str_eq_iff k j, str_eq_iff i k, str_eq_iff i j, lookup-insert k j v m)

  pub lookup-insert_self :
      (k : String) (v : V) (m : List (String × V)) → lookup k (insert k v m) ≡ some v
  lookup-insert_self k v m =
      lookup-insert k k v m ∙ ap (λ b. if b then some v else lookup k m) (str_eq_refl k)

  -- Writing back what was there leaves the map as it was, whatever was written between.
  pub lookup-restored :
      (k j : String) (v w : V) (m : List (String × V))
      → lookup k m ≡ some v
      → lookup j (insert k v (insert k w m)) ≡ lookup j m
  lookup-restored k j v w m h =
      ground (arith, lookup-insert k j v (insert k w m), lookup-insert k j w m, str_eq_iff k j)

  pub lookup-delete :
      (k j : String) (m : List (String × V))
      → lookup j (delete k m) ≡ (if str_eq k j then none else lookup j m)
  unfolding lookup delete
  lookup-delete k j [] = ground arith
  lookup-delete k j ((i, w) ∷ m) =
      ground (arith, str_eq_iff k j, str_eq_iff i k, str_eq_iff i j, lookup-delete k j m)

-- A `map[string]struct{}`, and a linear scan of a slice of strings.
unfoldable pub contains : String → List String → Bool
contains k [] = false
contains k (j ∷ s) = str_eq j k || contains k s

unfoldable pub add_name : String → List String → List String
add_name k s = if contains k s then s else k ∷ s

-- The keys of a Go map are distinct, so one occurrence goes.
unfoldable pub remove_name : String → List String → List String
remove_name k [] = []
remove_name k (j ∷ s) = if str_eq j k then s else j ∷ remove_name k s

pub length-remove_name :
    (k : String) (s : List String) → contains k s ≡ true → suc (length (remove_name k s)) ≡ length s
unfolding contains remove_name
length-remove_name k [] h = ground arith
length-remove_name k (j ∷ s) h = ground (arith, length-remove_name k s)
