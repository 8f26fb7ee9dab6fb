-- ===== src/Common/Texts.antt =====
-- Go texts as lists of code points, with the functions of `strings` and `unicode` that the
-- code calls. On valid UTF-8 the byte-wise searches of Go find what these find.
use Prim.Native.Nat.{ℕ, ◌+◌}
use Prim.Native.Char.{code}
use Prim.Native.String.{String}
use mathlib.Core.Path.{◌≡◌, refl}
use mathlib.Core.Bool.{Bool, true, false, ◌&&◌, ◌||◌}
use mathlib.Core.List.{List, [], ◌∷◌, ◌++◌, reverse}
use native.Mathlib.Omega.{arith}
use kamacu.Common.Tests.{if◌then◌else◌, ltb, leb, ◌==◌}

abbrev pub Text : Type 0
Text = List ℕ

-- The code points of a literal.
abbrev pub codes : String → Text
codes String.[] = []
codes (String.◌∷◌ c s) = code c ∷ codes s

-- `unicode.IsSpace`.
unfoldable pub is_space : ℕ → Bool
is_space r =
    leb 9 r && leb r 13
    || r == 32
    || r == 0x85
    || r == 0xa0
    || r == 0x1680
    || leb 0x2000 r && leb r 0x200a
    || r == 0x2028
    || r == 0x2029
    || r == 0x202f
    || r == 0x205f
    || r == 0x3000

-- `strings.TrimLeftFunc` and its mirror images.
abbrev pub trim_left : (ℕ → Bool) → Text → Text
trim_left p [] = []
trim_left p (c ∷ s) = if p c then trim_left p s else c ∷ s

unfoldable pub trim_right : (ℕ → Bool) → Text → Text
trim_right p s = reverse (trim_left p (reverse s))

unfoldable pub trim_space : Text → Text
unfolding trim_right is_space
trim_space s = trim_right is_space (trim_left is_space s)

abbrev pub text_eq : Text → Text → Bool
text_eq [] [] = true
text_eq [] (d ∷ t) = false
text_eq (c ∷ s) [] = false
text_eq (c ∷ s) (d ∷ t) = c == d && text_eq s t

abbrev pub has_prefix : Text → Text → Bool
has_prefix s [] = true
has_prefix [] (d ∷ p) = false
has_prefix (c ∷ s) (d ∷ p) = c == d && has_prefix s p

abbrev pub contains : Text → Text → Bool
contains [] p = has_prefix [] p
contains (c ∷ s) p = has_prefix (c ∷ s) p || contains s p

-- What stands before the first `sep`, and the pieces behind it: never empty.
abbrev pub push_head : ℕ → List Text → List Text
push_head c [] = (c ∷ []) ∷ []
push_head c (p ∷ ps) = (c ∷ p) ∷ ps

-- `strings.Split(s, sep)` for a separator of one character.
unfoldable pub split : ℕ → Text → List Text
split sep [] = [] ∷ []
split sep (c ∷ s) = let rest = split sep s in if c == sep then [] ∷ rest else push_head c rest

-- `strings.Join(ps, sep)`.
unfoldable pub join : ℕ → List Text → Text
join sep [] = []
join sep (p ∷ []) = p
join sep (p ∷ q ∷ ps) = p ++ sep ∷ join sep (q ∷ ps)

-- `len` of a Go string counts the bytes of its UTF-8.
abbrev pub rune_len : ℕ → ℕ
rune_len c = if ltb c 0x80 then 1 else if ltb c 0x800 then 2 else if ltb c 0x10000 then 3 else 4

abbrev pub byte_len : Text → ℕ
byte_len [] = 0
byte_len (c ∷ s) = rune_len c + byte_len s

pub text_eq→eq : (s t : Text) → text_eq s t ≡ true → s ≡ t
text_eq→eq [] [] h = refl
text_eq→eq [] (d ∷ t) h = ground arith
text_eq→eq (c ∷ s) [] h = ground arith
text_eq→eq (c ∷ s) (d ∷ t) h = ground (arith, text_eq→eq s t)

pub text_eq_self : (s : Text) → text_eq s s ≡ true
text_eq_self [] = refl
text_eq_self (c ∷ s) = ground (arith, text_eq_self s)

-- Splitting and joining are inverse.
pub join-push_head :
    (sep c : ℕ) (p : Text) (ps : List Text)
    → join sep (push_head c (p ∷ ps)) ≡ c ∷ join sep (p ∷ ps)
unfolding join
join-push_head sep c p [] = refl
join-push_head sep c p (q ∷ ps) = refl
