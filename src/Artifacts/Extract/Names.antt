-- ===== src/Artifacts/Extract/Names.antt =====
-- Where the names of an archive lead that pass `validPath` of internal/artifact/service.go.
use kamacu.Common.{
  ◌≡◌, refl, subst, Bool, true, not, ◌&&◌, ◌||◌, codes, any, text_eq, Bool-cases, inl, inr, arith,
  split, has_prefix, Text, text_eq→eq, sym,
}
use kamacu.Artifacts.Extract.{Entry, entry_name, is_root, is_dir, valid_path}

and_left : (a b : Bool) → (a && b) ≡ true → a ≡ true
and_left a b h = ground (arith, h)

-- An element of the path is `..`.
abbrev pub climbs : Text → Bool
climbs name = any (text_eq (codes "..")) (split 47 name)

-- The path stays below the directory that it is relative to.
abbrev pub is_below : Text → Bool
is_below name = not (has_prefix name (codes "/")) && not (climbs name)

abbrev pub is_safe : Entry → Bool
is_safe e = is_below (entry_name e)

-- `path.Clean` removes each `..` with the element before it, so that a path it leaves alone has them
-- only in front.
abbrev pub IsCleaning : (Text → Text) → Type 0
IsCleaning clean =
    (name : Text)
    → text_eq (clean name) name ≡ true
    → climbs name ≡ true
    → (text_eq name (codes "..") || has_prefix name (codes "../") || has_prefix name (codes "/"))
      ≡ true

pub valid_path-is_below :
    (clean : Text → Text) (name : Text)
    → IsCleaning clean
    → valid_path clean name ≡ true
    → is_below name ≡ true
unfolding valid_path
valid_path-is_below clean name up h = elim (Bool-cases (climbs name)) [
  | inl c ↦ absurd (ground (arith, h, up name (ground (arith, h)) c))
  | inr c ↦ ground (arith, h, c)
]

pub root_is_below : (e : Entry) → is_root e ≡ true → is_safe e ≡ true
unfolding is_root split
root_is_below e h =
    let same : entry_name e ≡ codes "." =
      text_eq→eq (entry_name e) (codes ".")
        (and_left (text_eq (entry_name e) (codes ".")) (is_dir e.typeflag) h) in
    subst (λ n. is_below n ≡ true) (sym same) refl
