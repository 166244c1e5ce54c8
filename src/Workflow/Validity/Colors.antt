-- ===== src/Workflow/Validity/Colors.antt =====
-- What the colour of a state looks like (flowgency/workflows/models.py, `_HEX_COLOR_RE`), in the codes
-- of its characters.
use Prim.Native.Char.{code}
use flowgency.Common.{
  ◌≡◌, ◌≤◌, ◌⊎◌, ◌↔◌, refl, sym, ap, subst, inl, inr, true, arith, ℕ, zero, suc, String, List, [],
  ◌∷◌, ◌++◌, All, length,
}
use flowgency.Workflow.Definition.{is_hex, at_dollar, match_hex, is_hex_color}

-- A digit, or a letter from a to f in either case.
abbrev pub HexDigit : ℕ → Type 0
HexDigit c = ((48 ≤ c) × (c ≤ 57)) ⊎ ((97 ≤ c) × (c ≤ 102)) ⊎ ((65 ≤ c) × (c ≤ 70))

unfoldable pub codes : String → List ℕ
codes String.[] = []
codes (String.◌∷◌ c s) = code c ∷ codes s

-- The text ends, or a newline ends it.
abbrev pub Ends : List ℕ → Type 0
Ends text = (text ≡ []) ⊎ (text ≡ 10 ∷ [])

-- A number sign and six hexadecimal digits.
abbrev pub IsColor : List ℕ → Type 0
IsColor text =
    (digits : List ℕ) × (rest : List ℕ) × (text ≡ 35 ∷ (digits ++ rest))
    × (length digits ≡ 6)
    × All HexDigit digits
    × Ends rest

is_hex_iff : (c : ℕ) → (is_hex c ≡ true) ↔ HexDigit c
unfolding is_hex
is_hex_iff c = (λ h. ground arith, λ h. ground arith)

cons_inj : {A : Type 0} {x y : A} {xs ys : List A} → x ∷ xs ≡ y ∷ ys → (x ≡ y) × (xs ≡ ys)
cons_inj h = (ground arith, ground arith)

at_dollar_iff : (s : String) → (at_dollar s ≡ true) ↔ Ends (codes s)
unfolding at_dollar codes
at_dollar_iff String.[] = (λ h. inl refl, λ h. refl)
at_dollar_iff (String.◌∷◌ c String.[]) = (
  λ h. inr (ap (λ x. x ∷ []) (ground arith)),
  λ h. elim h [ inl e ↦ absurd (cc) | inr e ↦ rw ((cons_inj e).0) refl ],
)
at_dollar_iff (String.◌∷◌ c (String.◌∷◌ d s)) =
    (λ h. absurd (cc), λ h. elim h [ inl e ↦ absurd (cc) | inr e ↦ absurd (cc ((cons_inj e).1)) ])

abbrev Digits : ℕ → List ℕ → List ℕ → List ℕ → Type 0
Digits n text digits rest =
    (text ≡ digits ++ rest) × (length digits ≡ n) × All HexDigit digits × Ends rest

match_hex-Digits :
    (n : ℕ) (s : String)
    → match_hex n s ≡ true
    → (digits : List ℕ) × (rest : List ℕ) × Digits n (codes s) digits rest
unfolding match_hex codes
match_hex-Digits zero s h = ([], codes s, (refl, refl, tt, (at_dollar_iff s).0 h))
match_hex-Digits (suc n) String.[] h = absurd (cc)
match_hex-Digits (suc n) (String.◌∷◌ c s) h =
    let (digits, rest, found) = match_hex-Digits n s (ground arith) in
    let (parts, count, hex, ends) = found in
    (
      code c ∷ digits,
      rest,
      (
        ap (λ x. code c ∷ x) parts,
        ap suc count,
        ((is_hex_iff (code c)).0 (ground arith), hex),
        ends,
      ),
    )

Digits-match_hex :
    (n : ℕ) (s : String) (digits rest : List ℕ)
    → Digits n (codes s) digits rest
    → match_hex n s ≡ true
unfolding match_hex codes
Digits-match_hex zero s [] rest (parts, count, hex, ends) =
    (at_dollar_iff s).1 (subst Ends (sym parts) ends)
Digits-match_hex zero s (x ∷ xs) rest (parts, count, hex, ends) = absurd (ground arith)
Digits-match_hex (suc n) s [] rest (parts, count, hex, ends) = absurd (ground arith)
Digits-match_hex (suc n) String.[] (x ∷ xs) rest (parts, count, hex, ends) = absurd (cc)
Digits-match_hex (suc n) (String.◌∷◌ c s) (x ∷ xs) rest (parts, count, hex, ends) =
    let (first, others) = cons_inj parts in
    rw
      (
        (is_hex_iff (code c)).1 (subst HexDigit (sym first) hex.0),
        Digits-match_hex n s xs rest (others, ground arith, hex.1, ends),
      )
      refl

pub is_hex_color_iff : (s : String) → (is_hex_color s ≡ true) ↔ IsColor (codes s)
unfolding is_hex_color codes
is_hex_color_iff String.[] =
    (λ h. absurd (cc), λ (digits, rest, parts, count, hex, ends). absurd (cc))
is_hex_color_iff (String.◌∷◌ c s) = (
  λ h.
      let (digits, rest, found) = match_hex-Digits 6 s (ground arith) in
      let (parts, count, hex, ends) = found in
      let sign : code c ≡ 35 = ground arith in
      (digits, rest, rw (sign, parts) refl, count, hex, ends),
  λ (digits, rest, parts, count, hex, ends).
      let (sign, others) = cons_inj parts in
      rw (sign, Digits-match_hex 6 s digits rest (others, count, hex, ends)) refl,
)
