-- ===== src/Text/Buffers.antt =====
-- What the string copies of the program leave in an array.
use kia.Base.{
  ℕ, zero, suc, ◌-◌, ◌≤◌, ◌<◌, ◌≡◌, ◌↔◌, refl, ap, ◌∙◌, true, [], ◌∷◌, ◌++◌, length, set, take,
  drop, replicate, arith, length-append, length-set, length-take, length-drop, length-replicate,
  take_all,
}
use kia.Text.{Bytes, IsText, cstr, equal, zeros, pad, strncpy, copy_string, IsBuffer}

-- `strcmp` answers 0 for the same text only.
pub equal_iff : (s t : Bytes) → (equal s t ≡ true) ↔ (s ≡ t)
unfolding equal
equal_iff [] [] = ground arith
equal_iff [] (d ∷ t) = ground arith
equal_iff (c ∷ s) [] = ground arith
equal_iff (c ∷ s) (d ∷ t) = ground (arith, equal_iff s t)

pub cstr-IsText : (s : Bytes) → IsText (cstr s)
unfolding cstr
cstr-IsText [] = tt
cstr-IsText (c ∷ cs) = ground (arith, cstr-IsText cs)

pub cstr_of_text : (s : Bytes) → IsText s → cstr s ≡ s
unfolding cstr
cstr_of_text [] h = refl
cstr_of_text (c ∷ cs) h = ground (arith, cstr_of_text cs h.1)

length-pad : (n : ℕ) (s : Bytes) → length (pad n s) ≡ n
unfolding pad
length-pad zero s = refl
length-pad (suc n) [] = ap suc (length-pad n [])
length-pad (suc n) (c ∷ s) = ap suc (length-pad n s)

length-strncpy :
    (dst src : Bytes) (n : ℕ) → n ≤ length dst → length (strncpy dst src n) ≡ length dst
unfolding strncpy
length-strncpy dst src n h =
    omega
      (arith, length-append {0} (pad n src) (drop n dst), length-pad n src, length-drop {0} n dst)

pub length-copy_string :
    (size : ℕ) (dst src : Bytes) → length dst ≡ size → length (copy_string size dst src) ≡ size
unfolding copy_string
length-copy_string size dst src h =
    length-set (strncpy dst src (size - 1)) (size - 1) 0
    ∙ length-strncpy dst src (size - 1) (omega arith)
    ∙ h

-- A copy of n bytes at most, and a terminator at n, which is inside the array.
pub cstr-set :
    (n : ℕ) (dst src : Bytes)
    → n < length dst
    → IsText src
    → cstr (set (pad n src ++ drop n dst) n 0) ≡ take n src
unfolding cstr set pad drop take
cstr-set zero [] src h t = absurd (omega arith)
cstr-set zero (x ∷ dst) src h t = refl
cstr-set (suc n) [] src h t = absurd (omega arith)
cstr-set (suc n) (x ∷ dst) [] h t = refl
cstr-set (suc n) (x ∷ dst) (c ∷ src) h t = ground (arith, cstr-set n dst src (omega arith) t.1)

-- `copy_string` keeps as much of the source as fits in front of the terminator.
pub cstr-copy_string :
    (size : ℕ) (dst src : Bytes)
    → 0 < size
    → length dst ≡ size
    → IsText src
    → cstr (copy_string size dst src) ≡ take (size - 1) src
unfolding copy_string strncpy
cstr-copy_string size dst src p h t = cstr-set (size - 1) dst src (omega arith) t

-- A source that fits is kept whole.
pub cstr-copy_string_fits :
    (size : ℕ) (dst src : Bytes)
    → length src < size
    → length dst ≡ size
    → IsText src
    → cstr (copy_string size dst src) ≡ src
cstr-copy_string_fits size dst src p h t =
    cstr-copy_string size dst src (omega arith) h t ∙ take_all (size - 1) src (omega arith)

pub copy_string-IsBuffer :
    (size : ℕ) (dst src : Bytes)
    → 0 < size
    → length dst ≡ size
    → IsText src
    → IsBuffer size (copy_string size dst src)
copy_string-IsBuffer size dst src p h t = record {
  sized = length-copy_string size dst src h;
  terminated =
      omega
        (arith, ap length (cstr-copy_string size dst src p h t), length-take {0} (size - 1) src);
}

cstr-replicate : (n : ℕ) → cstr (replicate n 0) ≡ []
unfolding cstr replicate
cstr-replicate zero = refl
cstr-replicate (suc n) = refl

pub cstr-zeros : (n : ℕ) → cstr (zeros n) ≡ []
unfolding zeros
cstr-zeros n = cstr-replicate n

pub length-zeros : (n : ℕ) → length (zeros n) ≡ n
unfolding zeros
length-zeros n = length-replicate n 0

pub zeros-IsBuffer : (n : ℕ) → 0 < n → IsBuffer n (zeros n)
zeros-IsBuffer n p = record {
  sized = length-zeros n;
  terminated = omega (arith, ap length (cstr-zeros n));
}

-- An array that holds a text and zeros behind it.
pub cstr-pad : (n : ℕ) (t : Bytes) → IsText t → length t < n → cstr (pad n t) ≡ t
unfolding cstr pad
cstr-pad zero t i h = absurd (omega arith)
cstr-pad (suc n) [] i h = refl
cstr-pad (suc n) (c ∷ t) i h = ground (arith, cstr-pad n t i.1 (omega arith))

pub zeros-pad : (n : ℕ) → zeros n ≡ pad n []
unfolding zeros replicate pad
zeros-pad zero = refl
zeros-pad (suc n) = ap (◌∷◌ 0) (zeros-pad n)

pub pad-IsBuffer : (n : ℕ) (t : Bytes) → IsText t → length t < n → IsBuffer n (pad n t)
pad-IsBuffer n t i h = record {
  sized = length-pad n t;
  terminated = omega (arith, ap length (cstr-pad n t i h));
}
