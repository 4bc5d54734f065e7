-- ===== src/Plugin/Routes/Paths.antt =====
-- The paths of a tree of commands, and the texts that fit them.
use rms_gate.Base.{
  String, ◌≡◌, refl, ap, ◌∙◌, inl, inr, Bool, true, false, not, ◌&&◌, Option, none, some, List, [],
  ◌∷◌, ◌++◌, map, arith, if◌then◌else◌, Option-cases, ◌>>=◌, >>=-eq-some, Occurs, str_eq,
  str_eq_iff,
}
use rms_gate.Plugin.Routes.{
  Builder, Handler, Args, ArgumentType, literal, argument, ◌>then>◌, ◌>executes>◌,
}

-- A step of a path: a word as it is, or a text of some type under a name.
pub data Part : Type 0 where
  word : String → Part
  value : String → ArgumentType → Part

unfoldable pub label : Builder → Part
label (literal w) = word w
label (argument n type) = value n type
label (b >then> c) = label b
label (b >executes> h) = label b

abbrev pub Route : Type 0
Route = List Part × Handler

-- The paths that run a handler.
unfoldable pub paths : Builder → List Route
unfolding label
paths (literal w) = []
paths (argument n type) = []
paths (b >then> c) = paths b ++ map (λ (p : Route). (label b ∷ p.0, p.1)) (paths c)
paths (b >executes> h) = paths b ++ ((label b ∷ [], h) ∷ [])

unfoldable pub all_paths : List Builder → List Route
unfolding paths
all_paths [] = []
all_paths (b ∷ bs) = paths b ++ all_paths bs

-- The arguments of a text that fits a path; `reads` says which words the library takes for an
-- argument of a type.
unfoldable pub fits : (ArgumentType → String → Bool) → List Part → List String → Option Args
fits reads [] [] = some []
fits reads [] (t ∷ ts) = none
fits reads (p ∷ ps) [] = none
fits reads (word w ∷ ps) (t ∷ ts) = if str_eq w t then fits reads ps ts else none
fits reads (value n type ∷ ps) (t ∷ ts) =
    let rest = fits reads ps ts >>= λ args. some ((n, t) ∷ args) in
    if reads type t then rest else none

-- Whether some text may fit both.
unfoldable pub meet : List Part → List Part → Bool
meet [] [] = true
meet [] (q ∷ qs) = false
meet (p ∷ ps) [] = false
meet (word w ∷ ps) (word v ∷ qs) = str_eq w v && meet ps qs
meet (word w ∷ ps) (value n type ∷ qs) = meet ps qs
meet (value n type ∷ ps) (q ∷ qs) = meet ps qs

if_some :
    {A : Type 0} (c : Bool) (x : Option A) (a : A) → (if c then x else none) ≡ some a → x ≡ some a
if_some c x a e = ground arith

fits-meet :
    (reads : ArgumentType → String → Bool) (ps qs : List Part) (ts : List String) (a b : Args)
    → fits reads ps ts ≡ some a
    → fits reads qs ts ≡ some b
    → meet ps qs ≡ true
unfolding fits meet
fits-meet reads [] [] ts a b e d = refl
fits-meet reads [] (q ∷ qs) [] a b e d = cc
fits-meet reads [] (q ∷ qs) (t ∷ ts) a b e d = cc
fits-meet reads (p ∷ ps) [] [] a b e d = cc
fits-meet reads (p ∷ ps) [] (t ∷ ts) a b e d = cc
fits-meet reads (p ∷ ps) (q ∷ qs) [] a b e d = cc
fits-meet reads (word w ∷ ps) (word v ∷ qs) (t ∷ ts) a b e d =
    ground (arith, str_eq_iff w t, str_eq_iff v t, str_eq_iff w v, fits-meet reads ps qs ts a b)
fits-meet reads (word w ∷ ps) (value n type ∷ qs) (t ∷ ts) a b e d =
    let (b', d', _) = >>=-eq-some (fits reads qs ts) _ b (if_some (reads type t) _ b d) in
    fits-meet reads ps qs ts a b' (if_some (str_eq w t) _ a e) d'
fits-meet reads (value n type ∷ ps) (word v ∷ qs) (t ∷ ts) a b e d =
    let (a', e', _) = >>=-eq-some (fits reads ps ts) _ a (if_some (reads type t) _ a e) in
    fits-meet reads ps qs ts a' b e' (if_some (str_eq v t) _ b d)
fits-meet reads (value n type ∷ ps) (value m type' ∷ qs) (t ∷ ts) a b e d =
    let (a', e', _) = >>=-eq-some (fits reads ps ts) _ a (if_some (reads type t) _ a e) in
    let (b', d', _) = >>=-eq-some (fits reads qs ts) _ b (if_some (reads type' t) _ b d) in
    fits-meet reads ps qs ts a' b' e' d'

-- No text fits one of the paths and this one.
unfoldable pub clear_of : List Part → List Route → Bool
unfolding meet
clear_of ps [] = true
clear_of ps (q ∷ qs) = not (meet ps q.0) && clear_of ps qs

unfoldable pub separate : List Route → Bool
unfolding clear_of
separate [] = true
separate (p ∷ ps) = clear_of p.0 ps && separate ps

-- The first path that fits.
unfoldable pub first_fit :
    (ArgumentType → String → Bool) → List Route → List String → Option (Handler × Args)
unfolding fits
first_fit reads [] ts = none
first_fit reads (p ∷ ps) ts = elim (fits reads p.0 ts) [
  | none ↦ first_fit reads ps ts
  | some args ↦ some (p.1, args)
]

clear_of-none :
    (reads : ArgumentType → String → Bool) (ps qs : List Part) (h : Handler) (rest : List Route)
    (ts : List String) (a b : Args)
    → clear_of ps rest ≡ true
    → Occurs (qs, h) rest
    → fits reads ps ts ≡ some a
    → fits reads qs ts ≡ some b
    → ⊥
unfolding clear_of
clear_of-none reads ps qs h [] ts a b c at e d = at
clear_of-none reads ps qs h (r ∷ rest) ts a b c (inl same) e d =
    let m = fits-meet reads ps r.0 ts a b e (ap (λ (x : Route). fits reads x.0 ts) same ∙ d) in
    ground (arith, m, c)
clear_of-none reads ps qs h (r ∷ rest) ts a b c (inr later) e d =
    clear_of-none reads ps qs h rest ts a b (ground (arith, c)) later e d

-- Where no two paths meet, the path that fits is found.
pub first_fit-separate :
    (reads : ArgumentType → String → Bool) (rs : List Route) (ps : List Part) (h : Handler)
    (ts : List String) (args : Args)
    → separate rs ≡ true
    → Occurs (ps, h) rs
    → fits reads ps ts ≡ some args
    → first_fit reads rs ts ≡ some (h, args)
unfolding separate first_fit
first_fit-separate reads [] ps h ts args s at e = absurd at
first_fit-separate reads (r ∷ rs) ps h ts args s (inl same) e =
    let own = ap (λ (x : Route). fits reads x.0 ts) same ∙ e in
    rw (first_fit, own) (ap (λ (x : Route). some (x.1, args)) same)
first_fit-separate reads (r ∷ rs) ps h ts args s (inr later) e =
    elim (Option-cases (fits reads r.0 ts)) [
      | inl no_fit ↦
          rw (first_fit, no_fit)
            (first_fit-separate reads rs ps h ts args (ground (arith, s)) later e)
      | inr (a, fit) ↦
          absurd (clear_of-none reads r.0 ps h rs ts a args (ground (arith, s)) later fit e)
    ]
