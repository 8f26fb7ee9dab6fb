-- ===== src/Settings/Tokens.antt =====
-- Arguments of internal/settings/tokenize.go.
use kamacu.Common.{
  ℕ, ◌≡◌, refl, ap, ◌∙◌, true, false, ◌||◌, Option, none, some, List, [], ◌∷◌, ◌++◌, Text, ◌==◌,
  ==_iff, is_nil, is_space, All, Bool-cases, inl, inr, arith, any, map,
}
use mathlib.Core.List.{append_assoc, append-nil}
use kamacu.Settings.{flush, tokens_from, tokenize}

-- A token between double quotes, or between single quotes.
abbrev pub quoted : ℕ → Text → Text
quoted q t = q ∷ t ++ q ∷ []

-- Quoted tokens, each behind a space.
abbrev pub print : List (ℕ × Text) → Text
print [] = []
print ((q, t) ∷ ts) = 32 ∷ quoted q t ++ print ts

-- A quote, and a token that is not empty and does not hold it.
abbrev pub IsToken : ℕ × Text → Type 0
IsToken (q, t) = ((q == 39 || q == 34) ≡ true) × (is_nil t ≡ false) × (any (λ c. c == q) t ≡ false)

quoted_read :
    (q : ℕ) (cur t rest : Text)
    → any (λ c. c == q) t ≡ false
    → tokens_from cur (some q) (t ++ q ∷ rest) ≡ tokens_from (cur ++ t) none rest
quoted_read q cur [] rest h = ground (arith, (==_iff q q).1 refl, append-nil cur)
quoted_read q cur (c ∷ t) rest h =
    let next_ : (c == q) ≡ false = ground (arith, h) in
    let read : tokens_from cur (some q) (c ∷ t ++ q ∷ rest)
        ≡ tokens_from (cur ++ c ∷ []) (some q) (t ++ q ∷ rest) =
      ground (arith, next_) in
    read
    ∙ (quoted_read q (cur ++ c ∷ []) t rest (ground (arith, h))
        ∙ ap (λ r. tokens_from r none rest) (append_assoc cur (c ∷ []) t))

opening :
    (q : ℕ) (s : Text)
    → (q == 39 || q == 34) ≡ true
    → tokens_from [] none (q ∷ s) ≡ tokens_from [] (some q) s
opening q s h = ground (arith, h)

flush_token : (t : Text) (ts : List Text) → is_nil t ≡ false → flush t ts ≡ t ∷ ts
flush_token [] ts h = absurd (ground (arith, h))
flush_token (c ∷ t) ts h = refl

print_read :
    (cur : Text) (ts : List (ℕ × Text))
    → All IsToken ts
    → tokens_from cur none (print ts) ≡ flush cur (map (λ p. p.1) ts)
unfolding is_space
print_read cur [] h = refl
print_read cur ((q, t) ∷ ts) h =
    let (token, rest) = h in
    ap (flush cur) (
      ap (tokens_from [] none) (ap (λ r. q ∷ r) (append_assoc t (q ∷ []) (print ts)))
      ∙ opening q (t ++ q ∷ print ts) token.0
      ∙ quoted_read q [] t (print ts) token.2
      ∙ print_read t ts rest
      ∙ flush_token t (map (λ p. p.1) ts) token.1)

-- What is quoted is passed on as it stands, spaces and other quotes included.
pub tokenize-print :
    (ts : List (ℕ × Text)) → All IsToken ts → tokenize (print ts) ≡ map (λ p. p.1) ts
unfolding tokenize
tokenize-print ts h = print_read [] ts h

flush_nonempty :
    (cur : Text) (ts : List Text)
    → All (λ t. is_nil t ≡ false) ts
    → All (λ t. is_nil t ≡ false) (flush cur ts)
flush_nonempty [] ts h = h
flush_nonempty (c ∷ cur) ts h = (refl, h)

tokens_from_nonempty :
    (cur : Text) (quote : Option ℕ) (s : Text)
    → All (λ t. is_nil t ≡ false) (tokens_from cur quote s)
tokens_from_nonempty cur quote [] = flush_nonempty cur [] tt
tokens_from_nonempty cur (some q) (r ∷ s) = elim (Bool-cases (r == q)) [
  | inl h ↦ rw (h, tokens_from) (tokens_from_nonempty cur none s)
  | inr h ↦ rw (h, tokens_from) (tokens_from_nonempty (cur ++ r ∷ []) (some q) s)
]
tokens_from_nonempty cur none (r ∷ s) =
    let spaced = flush_nonempty cur (tokens_from [] none s) (tokens_from_nonempty [] none s) in
    elim (Bool-cases (r == 39 || r == 34)) [
      | inl h ↦ rw (h, tokens_from) (tokens_from_nonempty cur (some r) s)
      | inr h ↦ elim (Bool-cases (is_space r)) [
        | inl k ↦ rw (h, k, tokens_from) spaced
        | inr k ↦ rw (h, k, tokens_from) (tokens_from_nonempty (cur ++ r ∷ []) none s)
      ]
    ]

-- No token is empty.
pub tokenize_nonempty : (s : Text) → All (λ t. is_nil t ≡ false) (tokenize s)
unfolding tokenize
tokenize_nonempty s = tokens_from_nonempty [] none s
