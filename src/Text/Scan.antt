-- ===== src/Text/Scan.antt =====
-- Laws of the scanners: leading spaces and digits.
use kia.Base.{◌≡◌, refl, ap, true, false, [], ◌∷◌, ◌++◌, All, Bool-cases, inl, inr}
use kia.Text.{Bytes, IsText, is_space, skip_spaces}

-- A text of spaces only.
abbrev pub IsBlank : Bytes → Type 0
IsBlank = All (λ c. is_space c ≡ true)

-- A text that does not begin with a space.
abbrev pub StartsFirm : Bytes → Type 0
StartsFirm [] = Unit {0}
StartsFirm (c ∷ _) = is_space c ≡ false

-- `skip_spaces` drops spaces and nothing else.
pub skip_spaces-splits : (s : Bytes) → (pre : Bytes) × IsBlank pre × (s ≡ pre ++ skip_spaces s)
unfolding skip_spaces
skip_spaces-splits [] = ([], tt, refl)
skip_spaces-splits (c ∷ cs) = elim (Bool-cases (is_space c)) [
  | inl e ↦
      let (pre, blank, split) = skip_spaces-splits cs in
      rw e (c ∷ pre, (e, blank), ap (◌∷◌ c) split)
  | inr e ↦ rw e ([], tt, refl)
]

pub skip_spaces-StartsFirm : (s : Bytes) → StartsFirm (skip_spaces s)
unfolding skip_spaces
skip_spaces-StartsFirm [] = tt
skip_spaces-StartsFirm (c ∷ cs) = elim (Bool-cases (is_space c)) [
  | inl e ↦ rw e (skip_spaces-StartsFirm cs)
  | inr e ↦ rw e e
]

pub skip_spaces-IsText : (s : Bytes) → IsText s → IsText (skip_spaces s)
unfolding skip_spaces
skip_spaces-IsText [] h = tt
skip_spaces-IsText (c ∷ cs) h = elim (Bool-cases (is_space c)) [
  | inl e ↦ rw e (skip_spaces-IsText cs h.1)
  | inr e ↦ rw e h
]

pub skip_spaces_firm : (s : Bytes) → StartsFirm s → skip_spaces s ≡ s
unfolding skip_spaces
skip_spaces_firm [] h = refl
skip_spaces_firm (c ∷ cs) h = rw h refl
