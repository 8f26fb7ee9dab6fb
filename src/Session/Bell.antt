-- ===== src/Session/Bell.antt =====
-- `belScanner` of internal/session/agent.go: BELs of the output that end no OSC string.
use kamacu.Common.{
  ℕ, ◌+◌, ◌≡◌, refl, Bool, true, false, ◌&&◌, ◌||◌, List, [], ◌∷◌, ◌++◌, arith, if◌then◌else◌, ◌==◌,
}

-- `i+1 < len(chunk) && chunk[i+1] == c`.
abbrev pub next_is : ℕ → List ℕ → Bool
next_is c [] = false
next_is c (d ∷ bs) = d == c

-- The bare bells of a chunk and whether an OSC string is open behind it. `skip` tells that the
-- byte was taken together with the one before it (`i++`).
unfoldable pub scan : Bool → Bool → List ℕ → ℕ × Bool
scan skip in_osc [] = (0, in_osc)
scan true in_osc (c ∷ bs) = scan false in_osc bs
scan false true (c ∷ bs) =
    let st = c == 0x1b && next_is b'\\' bs in
    scan st (if c == 0x07 then false else if st then false else true) bs
scan false false (c ∷ bs) =
    let osc = c == 0x1b && next_is b']' bs in
    let (bare, open_at_end) = scan osc osc bs in (if c == 0x07 then bare + 1 else bare, open_at_end)

abbrev pub ends_in_esc : List ℕ → Bool
ends_in_esc [] = false
ends_in_esc (c ∷ []) = c == 0x1b
ends_in_esc (c ∷ d ∷ bs) = ends_in_esc (d ∷ bs)

-- The scan of a chunk, then of the next one from the state that it left.
abbrev pub scan_both : Bool → Bool → List ℕ → List ℕ → ℕ × Bool
scan_both skip in_osc a b =
    let (n, o) = scan skip in_osc a in let (m, o') = scan false o b in (n + m, o')

scan-append_cons :
    (skip in_osc : Bool) (c : ℕ) (a b : List ℕ)
    → ends_in_esc (c ∷ a) ≡ false
    → scan skip in_osc ((c ∷ a) ++ b) ≡ scan_both skip in_osc (c ∷ a) b
unfolding scan
scan-append_cons true in_osc c [] b h = ground arith
scan-append_cons false true c [] b h = ground arith
scan-append_cons false false c [] b h = ground arith
scan-append_cons true in_osc c (d ∷ a) b h = scan-append_cons false in_osc d a b h
scan-append_cons false true c (d ∷ a) b h =
    let st = c == 0x1b && (d == b'\\') in
    scan-append_cons st (if c == 0x07 then false else if st then false else true) d a b h
scan-append_cons false false c (d ∷ a) b h =
    let osc = c == 0x1b && (d == b']') in ground (arith, scan-append_cons osc osc d a b h)

-- Where no chunk ends in the escape byte, cutting the output into chunks changes neither the
-- count of bare bells nor the state: the scan of the whole is the scans of the parts.
pub scan-append :
    (in_osc : Bool) (a b : List ℕ)
    → ends_in_esc a ≡ false
    → scan false in_osc (a ++ b) ≡ scan_both false in_osc a b
unfolding scan
scan-append in_osc [] b h = ground arith
scan-append in_osc (c ∷ a) b h = scan-append_cons false in_osc c a b h

-- A payload of an OSC string: neither its terminator nor an escape.
abbrev pub is_payload : List ℕ → Bool
is_payload [] = true
is_payload (c ∷ bs) = (if c == 0x07 || c == 0x1b then false else true) && is_payload bs

scan_payload :
    (p rest : List ℕ)
    → is_payload p ≡ true
    → scan false true (p ++ 0x07 ∷ rest) ≡ scan false false rest
unfolding scan
scan_payload [] rest h = refl
scan_payload (c ∷ p) rest h = ground (arith, scan_payload p rest)

-- A whole title-setting sequence, ESC ] payload BEL, rings no bell and leaves the scanner as it
-- was, whatever output follows it.
pub scan_title :
    (p rest : List ℕ)
    → is_payload p ≡ true
    → scan false false (0x1b ∷ b']' ∷ p ++ 0x07 ∷ rest) ≡ scan false false rest
unfolding scan
scan_title p rest h = scan_payload p rest h

scan_plain : (p : List ℕ) → is_payload p ≡ true → scan false false (p ++ 0x07 ∷ []) ≡ (1, false)
unfolding scan
scan_plain [] h = refl
scan_plain (c ∷ p) h = ground (arith, scan_plain p)

-- Cut behind its escape byte, the same sequence rings: its terminator counts as a bare bell.
pub scan_split_title :
    (p : List ℕ)
    → is_payload p ≡ true
    → scan_both false false (0x1b ∷ []) (b']' ∷ p ++ 0x07 ∷ []) ≡ (1, false)
unfolding scan
scan_split_title p h = ground (arith, scan_plain p)
