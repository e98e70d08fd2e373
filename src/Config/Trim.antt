-- ===== src/Config/Trim.antt =====
-- `trim_whitespace` of src/config.c against its specification.
use kia.Base.{
  ℕ, zero, suc, ◌-◌, ◌≤◌, ◌<◌, ◌≡◌, refl, sym, ap, ◌∙◌, true, false, [], ◌∷◌, ◌++◌, All-take,
  take_all, length, length-take, take, drop, get_or, arith, Bool-cases, inl, inr, if◌then◌else◌,
  ◌⊎◌,
}
use kia.Text.{Bytes, IsText, is_empty, is_space, skip_spaces}
use kia.Text.Scan.{
  IsBlank, StartsFirm, skip_spaces_firm, skip_spaces-splits, skip_spaces-StartsFirm,
  skip_spaces-IsText,
}
use kia.Config.{rtrim, trim_whitespace}

rtrim-le : (s : Bytes) (e : ℕ) → rtrim s e ≤ e
unfolding rtrim
rtrim-le s zero = omega arith
rtrim-le s (suc e) = ground (arith, rtrim-le s e)

-- What the loop passes over is space.
rtrim_passes : (s : Bytes) (e j : ℕ) → rtrim s e < j → j ≤ e → is_space (get_or s j 0) ≡ true
unfolding rtrim
rtrim_passes s zero j l h = absurd (omega arith)
rtrim_passes s (suc e) j l h = ground (arith, rtrim_passes s e j)

-- It stops on a byte that is no space, or at the start.
rtrim_stops : (s : Bytes) (e : ℕ) → (rtrim s e ≡ 0) ⊎ (is_space (get_or s (rtrim s e) 0) ≡ false)
unfolding rtrim
rtrim_stops s zero = inl refl
rtrim_stops s (suc e) = elim (Bool-cases (is_space (get_or s (suc e) 0))) [
  | inl sp ↦ rw sp (rtrim_stops s e)
  | inr firm ↦ rw firm (inr firm)
]

IsBlank-of_get : (s : Bytes) → ((j : ℕ) → j < length s → is_space (get_or s j 0) ≡ true) → IsBlank s
IsBlank-of_get [] h = tt
IsBlank-of_get (c ∷ cs) h = (h 0 (omega arith), IsBlank-of_get cs (λ j l. h (suc j) (omega arith)))

drop-IsBlank :
    (n : ℕ) (s : Bytes)
    → ((j : ℕ) → n ≤ j → j < length s → is_space (get_or s j 0) ≡ true)
    → IsBlank (drop n s)
unfolding drop
drop-IsBlank zero s h = IsBlank-of_get s (λ j l. h j (omega arith) l)
drop-IsBlank (suc n) [] h = tt
drop-IsBlank (suc n) (c ∷ cs) h =
    drop-IsBlank n cs (λ j le l. h (suc j) (omega arith) (omega arith))

take-append-drop : (n : ℕ) (s : Bytes) → take n s ++ drop n s ≡ s
unfolding take drop
take-append-drop zero s = refl
take-append-drop (suc n) [] = refl
take-append-drop (suc n) (c ∷ cs) = ap (◌∷◌ c) (take-append-drop n cs)

get_or-take : (n i : ℕ) (s : Bytes) → i < n → get_or (take n s) i 0 ≡ get_or s i 0
unfolding take
get_or-take zero i s h = absurd (omega arith)
get_or-take (suc n) i [] h = refl
get_or-take (suc n) zero (c ∷ cs) h = refl
get_or-take (suc n) (suc i) (c ∷ cs) h = get_or-take n i cs (omega arith)

-- The last byte is no space.
abbrev pub EndsFirm : Bytes → Type 0
EndsFirm [] = Unit {0}
EndsFirm (c ∷ cs) = is_space (get_or (c ∷ cs) (length cs) 0) ≡ false

-- What trimming `s` should give.
pub record IsTrimOf (s t : Bytes) : Type 0 where
  pub before : Bytes
  pub after : Bytes
  pub before_blank : IsBlank before
  pub after_blank : IsBlank after
  pub splits : s ≡ before ++ (t ++ after)
  pub starts_firm : StartsFirm t
  pub ends_firm : EndsFirm t

EndsFirm-at : (t : Bytes) (n : ℕ) → length t ≡ suc n → is_space (get_or t n 0) ≡ false → EndsFirm t
EndsFirm-at [] n e h = tt
EndsFirm-at (c ∷ cs) n e h = let e' : n ≡ length cs = omega arith in rw e' at h

StartsFirm-take : (n : ℕ) (s : Bytes) → StartsFirm s → StartsFirm (take n s)
unfolding take
StartsFirm-take zero s h = tt
StartsFirm-take (suc n) [] h = tt
StartsFirm-take (suc n) (c ∷ cs) h = h

-- The trim of a text that starts with no space, by cases on whether anything is left.
trim_firm : Bytes → Bytes
unfolding rtrim take
trim_firm str = if is_empty str then str else take (suc (rtrim str (length str - 1))) str

stop_firm :
    (c : ℕ) (cs : Bytes)
    → is_space c ≡ false
    → is_space (get_or (c ∷ cs) (rtrim (c ∷ cs) (length cs)) 0) ≡ false
stop_firm c cs h = elim (rtrim_stops (c ∷ cs) (length cs)) [ inl e ↦ rw e h | inr firm ↦ firm ]

-- The part up to the byte that the loop stops on, at its index `k`.
prefix-IsTrimOf :
    (s pre : Bytes) (c k : ℕ) (cs : Bytes)
    → IsBlank pre
    → s ≡ pre ++ (c ∷ cs)
    → is_space c ≡ false
    → k ≡ rtrim (c ∷ cs) (length cs)
    → IsTrimOf s (take (suc k) (c ∷ cs))
prefix-IsTrimOf s pre c k cs b e f ek = record {
  before = pre;
  after = drop (suc k) (c ∷ cs);
  before_blank = b;
  after_blank =
      drop-IsBlank (suc k) (c ∷ cs)
        (λ j le l. rtrim_passes (c ∷ cs) (length cs) j (omega arith) (omega arith));
  splits = e ∙ ap (◌++◌ pre) (sym (take-append-drop (suc k) (c ∷ cs)));
  starts_firm = StartsFirm-take (suc k) (c ∷ cs) f;
  ends_firm =
      EndsFirm-at (take (suc k) (c ∷ cs)) k
        (omega (arith, length-take (suc k) (c ∷ cs), rtrim-le (c ∷ cs) (length cs)))
        (rw (get_or-take (suc k) k (c ∷ cs) (omega arith), ek) (stop_firm c cs f));
}

trim_firm-IsTrimOf :
    (s pre t : Bytes) → IsBlank pre → s ≡ pre ++ t → StartsFirm t → IsTrimOf s (trim_firm t)
unfolding trim_firm
trim_firm-IsTrimOf s pre [] b e f = record {
  before = pre;
  after = [];
  before_blank = b;
  after_blank = tt;
  splits = e;
  starts_firm = tt;
  ends_firm = tt;
}
trim_firm-IsTrimOf s pre (c ∷ cs) b e f =
    prefix-IsTrimOf s pre c _ cs b e f (ap (rtrim (c ∷ cs)) (omega arith))

-- What `trim_whitespace` returns is the text without the spaces at its two ends, and neither
-- begins nor ends with a space.
pub trim_whitespace-IsTrimOf : (s : Bytes) → IsTrimOf s (trim_whitespace s)
unfolding trim_whitespace trim_firm
trim_whitespace-IsTrimOf s =
    let (pre, blank, split) = skip_spaces-splits s in
    trim_firm-IsTrimOf s pre (skip_spaces s) blank split (skip_spaces-StartsFirm s)

trim_firm-IsText : (t : Bytes) → IsText t → IsText (trim_firm t)
unfolding trim_firm
trim_firm-IsText [] h = tt
trim_firm-IsText (c ∷ cs) h =
    All-take (λ x. 0 < x) (suc (rtrim (c ∷ cs) (length (c ∷ cs) - 1))) (c ∷ cs) h

pub trim_whitespace-IsText : (s : Bytes) → IsText s → IsText (trim_whitespace s)
unfolding trim_whitespace trim_firm
trim_whitespace-IsText s h = trim_firm-IsText (skip_spaces s) (skip_spaces-IsText s h)

rtrim_firm : (s : Bytes) (e : ℕ) → is_space (get_or s e 0) ≡ false → rtrim s e ≡ e
unfolding rtrim
rtrim_firm s zero h = refl
rtrim_firm s (suc e) h = rw h refl

trim_firm_whole : (t : Bytes) → EndsFirm t → trim_firm t ≡ t
unfolding trim_firm
trim_firm_whole [] h = refl
trim_firm_whole (c ∷ cs) h =
    let last : length (c ∷ cs) - 1 ≡ length cs = omega arith in
    let stop = ap (rtrim (c ∷ cs)) last ∙ rtrim_firm (c ∷ cs) (length cs) h in
    take_all (suc (rtrim (c ∷ cs) (length (c ∷ cs) - 1))) (c ∷ cs) (omega arith)

-- A text with no space at its ends is left as it is.
pub trim_whitespace_firm : (s : Bytes) → StartsFirm s → EndsFirm s → trim_whitespace s ≡ s
unfolding trim_whitespace trim_firm
trim_whitespace_firm s f e = rw (skip_spaces_firm s f) (trim_firm_whole s e)

-- Trimming twice is trimming once.
pub trim_whitespace_idem : (s : Bytes) → trim_whitespace (trim_whitespace s) ≡ trim_whitespace s
trim_whitespace_idem s =
    let t = trim_whitespace-IsTrimOf s in
    trim_whitespace_firm (trim_whitespace s) t.starts_firm t.ends_firm
