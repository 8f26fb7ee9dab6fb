-- ===== src/Settings/Templates.antt =====
-- Branch templates of internal/settings/template.go.
use kamacu.Common.{ℕ, ◌≡◌, refl, ap, false, List, [], ◌∷◌, ◌++◌, Text, codes, ◌==◌, All}
use kamacu.Settings.{replace, sanitize_title, expand_template}

-- A template as its author means it: plain characters and the three tokens.
pub data Piece : Type 0 where
  slug_token id_token title_token : Piece
  plain : ℕ → Piece

abbrev pub print_piece : Piece → Text
print_piece slug_token = codes "{slug}"
print_piece id_token = codes "{id}"
print_piece title_token = codes "{title}"
print_piece (plain c) = c ∷ []

abbrev pub print : List Piece → Text
print [] = []
print (p ∷ ps) = print_piece p ++ print ps

abbrev pub IsPiece : Piece → Type 0
IsPiece (plain c) = (c == 123) ≡ false
IsPiece _ = Unit

-- What each piece stands for.
abbrev pub value : Text → Text → Text → Piece → Text
value slug_ id title slug_token = slug_
value slug_ id title id_token = id
value slug_ id title title_token = title
value slug_ id title (plain c) = c ∷ []

abbrev pub values : Text → Text → Text → List Piece → Text
values slug_ id title [] = []
values slug_ id title (p ∷ ps) = value slug_ id title p ++ values slug_ id title ps

abbrev keys : Text → Text → Text → List (Text × Text)
keys slug_ id title = (codes "{slug}", slug_) ∷ (codes "{id}", id) ∷ (codes "{title}", title) ∷ []

replace_pieces :
    (slug_ id title : Text) (ps : List Piece)
    → All IsPiece ps
    → replace (keys slug_ id title) 0 (print ps) ≡ values slug_ id title ps
replace_pieces slug_ id title [] h = refl
replace_pieces slug_ id title (slug_token ∷ ps) h =
    ap (λ r. slug_ ++ r) (replace_pieces slug_ id title ps h.1)
replace_pieces slug_ id title (id_token ∷ ps) h =
    ap (λ r. id ++ r) (replace_pieces slug_ id title ps h.1)
replace_pieces slug_ id title (title_token ∷ ps) h =
    ap (λ r. title ++ r) (replace_pieces slug_ id title ps h.1)
replace_pieces slug_ id title (plain c ∷ ps) h =
    let other : (c == 123) ≡ false = h.0 in
    rw (other, replace) (ap (λ r. c ∷ r) (replace_pieces slug_ id title ps h.1))

-- A template is expanded piece by piece: every token becomes its value, wherever it stands and however
-- often, values are not expanded again, and all else but an opening brace stays.
pub expand_template-print :
    (lower : Text → Text) (format_int : ℕ → Text) (slug_ title : Text) (id : ℕ) (ps : List Piece)
    → All IsPiece ps
    → expand_template lower format_int (print ps) slug_ id title
      ≡ values slug_ (format_int id) (sanitize_title lower title) ps
unfolding expand_template
expand_template-print lower format_int slug_ title id ps h =
    replace_pieces slug_ (format_int id) (sanitize_title lower title) ps h
