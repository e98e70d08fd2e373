-- ===== src/Session/Discover/Slots.antt =====
-- The array of sessions of src/session.c: its first entries, and what a resize and a write keep.
use kia.Base.{ℕ, zero, suc, ◌≤◌, ◌<◌, ◌≡◌, refl, ap, List, [], ◌∷◌, length, set, get_or, arith, All}
use kia.Session.{SessionInfo}
use kia.Session.Desktop.Fields.{IsSession, IsSlot}
use kia.Session.Discover.{SessionList, entries, resize}

-- A session, whatever its type.
abbrev pub IsGood : SessionInfo → Type 0
IsGood s = IsSession s.type s

-- The list has at least n entries, and the first n have the property.
abbrev pub First : (SessionInfo → Type 0) → ℕ → List SessionInfo → Type 0
First P zero l = Unit {0}
First P (suc n) [] = ⊥
First P (suc n) (s ∷ l) = P s × First P n l

pub record IsScanned (l : SessionList) : Type 0 where
  pub sound : First IsGood l.count (entries l)
  pub slots : All IsSlot (entries l)

module _ (P : SessionInfo → Type 0) where
  pub First-resize :
      (n m : ℕ) (fresh : SessionInfo) (l : List SessionInfo)
      → n ≤ m
      → First P n l
      → First P n (resize m fresh l)
  unfolding resize
  First-resize zero m fresh l le h = tt
  First-resize (suc n) zero fresh l le h = absurd (omega arith)
  First-resize (suc n) (suc m) fresh [] le h = absurd h
  First-resize (suc n) (suc m) fresh (s ∷ l) le h =
      (h.0, First-resize n m fresh l (omega arith) h.1)

  pub First-set :
      (n : ℕ) (l : List SessionInfo) (s : SessionInfo) → First P n l → First P n (set l n s)
  unfolding set
  First-set zero l s h = tt
  First-set (suc n) [] s h = h
  First-set (suc n) (x ∷ l) s h = (h.0, First-set n l s h.1)

  pub First-set_more :
      (n : ℕ) (l : List SessionInfo) (s : SessionInfo)
      → First P n l
      → n < length l
      → P s
      → First P (suc n) (set l n s)
  unfolding set
  First-set_more zero [] s h lt p = absurd (omega arith)
  First-set_more zero (x ∷ l) s h lt p = (p, tt)
  First-set_more (suc n) [] s h lt p = h
  First-set_more (suc n) (x ∷ l) s h lt p = (h.0, First-set_more n l s h.1 (omega arith) p)

  pub All-resize :
      (n : ℕ) (fresh : SessionInfo) (l : List SessionInfo)
      → P fresh
      → All P l
      → All P (resize n fresh l)
  unfolding resize
  All-resize zero fresh l f h = tt
  All-resize (suc n) fresh [] f h = (f, All-resize n fresh [] f tt)
  All-resize (suc n) fresh (s ∷ l) f h = (h.0, All-resize n fresh l f h.1)

  pub All-set : (n : ℕ) (l : List SessionInfo) (s : SessionInfo) → P s → All P l → All P (set l n s)
  unfolding set
  All-set n [] s p h = tt
  All-set zero (x ∷ l) s p h = (p, h.1)
  All-set (suc n) (x ∷ l) s p h = (h.0, All-set n l s p h.1)

  pub All-get_or :
      (n : ℕ) (fresh : SessionInfo) (l : List SessionInfo)
      → P fresh
      → All P l
      → P (get_or l n fresh)
  All-get_or n fresh [] f h = f
  All-get_or zero fresh (s ∷ l) f h = h.0
  All-get_or (suc n) fresh (s ∷ l) f h = All-get_or n fresh l f h.1

pub length-resize :
    (n : ℕ) (fresh : SessionInfo) (l : List SessionInfo) → length (resize n fresh l) ≡ n
unfolding resize
length-resize zero fresh l = refl
length-resize (suc n) fresh [] = ap suc (length-resize n fresh [])
length-resize (suc n) fresh (s ∷ l) = ap suc (length-resize n fresh l)
