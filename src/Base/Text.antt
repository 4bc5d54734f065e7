-- ===== src/Base/Text.antt =====
-- Texts as code points, where the code looks into them.
use Prim.Native.Nat.{ℕ}
use Prim.Native.Char.{code}
use Prim.Native.String.{String}
use mathlib.Core.Path.{◌≡◌, ap, sym}
use mathlib.Core.Bool.{Bool, true, false, ◌&&◌, ◌||◌}
use mathlib.Core.List.{List, [], ◌∷◌, ◌++◌, append-nil, append_assoc}
use native.Mathlib.Omega.{arith}
use rms_gate.Base.Tests.{leb, ◌==◌, if◌then◌else◌}
use rms_gate.Base.Lists.{All}

-- The code points of a text: its bytes, if it is ASCII.
abbrev pub codes : String → List ℕ
codes String.[] = []
codes (String.◌∷◌ c s) = code c ∷ codes s

-- `unicode.IsSpace`, and the spaces of package fmt.
unfoldable pub is_space : ℕ → Bool
is_space c =
    (leb 0x9 c && leb c 0xd)
    || (c == 0x20
        || (c == 0x85
            || (c == 0xa0
                || (c == 0x1680
                    || ((leb 0x2000 c && leb c 0x200a)
                        || ((leb 0x2028 c && leb c 0x2029)
                            || (c == 0x202f || (c == 0x205f || c == 0x3000))))))))

-- `a == b` on texts.
unfoldable pub text_eq : List ℕ → List ℕ → Bool
text_eq [] [] = true
text_eq [] (d ∷ t) = false
text_eq (c ∷ s) [] = false
text_eq (c ∷ s) (d ∷ t) = c == d && text_eq s t

-- `strings.Fields`; the first argument is the word that is being read.
abbrev add_word : List ℕ → List (List ℕ) → List (List ℕ)
add_word [] ws = ws
add_word (c ∷ w) ws = (c ∷ w) ∷ ws

unfoldable pub fields_loop : List ℕ → List ℕ → List (List ℕ)
unfolding is_space
fields_loop word [] = add_word word []
fields_loop word (c ∷ s) =
    let ended = fields_loop [] s in
    let longer = fields_loop (word ++ (c ∷ [])) s in
    if is_space c then add_word word ended else longer

unfoldable pub fields : List ℕ → List (List ℕ)
unfolding fields_loop
fields s = fields_loop [] s

-- Nothing, or something behind a space.
abbrev pub Apart : List ℕ → Type 0
Apart [] = Unit
Apart (c ∷ s) = is_space c ≡ true

fields_loop-word :
    (x : ℕ) (w more rest : List ℕ)
    → All (λ c. is_space c ≡ false) more
    → Apart rest
    → (ws : List (List ℕ)) × (fields_loop (x ∷ w) (more ++ rest) ≡ (x ∷ (w ++ more)) ∷ ws)
unfolding fields_loop
fields_loop-word x w [] [] h a = ([], ap (λ v. (x ∷ v) ∷ []) (sym (append-nil w)))
fields_loop-word x w [] (c ∷ s) h a = (fields_loop [] s, ground (arith, append-nil w))
fields_loop-word x w (c ∷ more) rest (hc, h) a =
    let (ws, e) = fields_loop-word x (w ++ (c ∷ [])) more rest h a in
    (ws, ground (arith, e, append_assoc w (c ∷ []) more))

-- The first word of a text, whatever spaces stand before it and whatever follows behind a space.
pub fields-word :
    (front : List ℕ) (x : ℕ) (more rest : List ℕ)
    → All (λ c. is_space c ≡ true) front
    → is_space x ≡ false
    → All (λ c. is_space c ≡ false) more
    → Apart rest
    → (ws : List (List ℕ)) × (fields (front ++ (x ∷ (more ++ rest))) ≡ (x ∷ more) ∷ ws)
unfolding fields fields_loop
fields-word [] x more rest hf hx h a =
    let (ws, e) = fields_loop-word x [] more rest h a in (ws, ground (arith, e))
fields-word (c ∷ front) x more rest (hc, hf) hx h a =
    let (ws, e) = fields-word front x more rest hf hx h a in (ws, ground (arith, e))
