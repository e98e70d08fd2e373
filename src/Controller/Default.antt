-- ===== src/Controller/Default.antt =====
-- Which session `find_default_session` of src/controller.c finds.
use kia.Base.{
  ℕ, suc, ◌<◌, ◌≡◌, ◌≢◌, subst, refl, ap, sym, ◌∙◌, Bool, true, false, not, ◌&&◌, List, [], ◌∷◌,
  Option, none, some, take, length, ◌==◌, ℤ, pos, arith, Bool-cases, Option-cases, inl, inr,
  length-take,
}
use mathlib.Core.Bool.{true≢false}
use kia.Text.{Bytes, cstr, equal, is_empty}
use kia.Text.Buffers.{equal_iff}
use kia.Session.{SessionInfo}
use kia.Session.Discover.{SessionList}
use kia.Controller.{find_name, index_or_first, find_in, find_default_session}

-- What the search says of the names: the first place of the name, or that it is not there.
pub data IsSearched (name : Bytes) : List Bytes → Option ℕ → Type 0 where
  absent : IsSearched name [] none
  here : {l : List Bytes} → IsSearched name (name ∷ l) (some 0)
  later :
      {x : Bytes} {l : List Bytes} {i : ℕ}
      → x ≢ name
      → IsSearched name l (some i)
      → IsSearched name (x ∷ l) (some (suc i))
  nowhere :
      {x : Bytes} {l : List Bytes}
      → x ≢ name
      → IsSearched name l none
      → IsSearched name (x ∷ l) none

abbrev pub names : List SessionInfo → List Bytes
names [] = []
names (s ∷ l) = cstr s.name ∷ names l

longer :
    (name x : Bytes) (l : List Bytes) (o : Option ℕ)
    → x ≢ name
    → IsSearched name l o
    → IsSearched name (x ∷ l) (elim o [ none ↦ none | some i ↦ some (suc i) ])
longer name x l none d h = nowhere d h
longer name x l (some i) d h = later d h

&&-false : (b : Bool) → (b && false) ≡ false
&&-false true = refl
&&-false false = refl

find_name-IsSearched :
    (name : Bytes) (l : List SessionInfo)
    → is_empty name ≡ false
    → IsSearched name (names l) (find_name name l)
unfolding find_name
find_name-IsSearched name [] h = absent
find_name-IsSearched name (s ∷ l) h = elim (Bool-cases (equal (cstr s.name) name)) [
  | inl same ↦
      let named = (equal_iff (cstr s.name) name).0 same in
      let filled : is_empty (cstr s.name) ≡ false = ap is_empty named ∙ h in
      rw (filled, same) (subst (λ x. IsSearched name (x ∷ names l) (some 0)) (sym named) here)
  | inr other ↦
      let differs : cstr s.name ≢ name =
        λ e. true≢false (sym ((equal_iff (cstr s.name) name).1 e) ∙ other) in
      let later =
        longer name (cstr s.name) (names l) (find_name name l) differs
          (find_name-IsSearched name l h) in
      rw (other, &&-false (not (is_empty (cstr s.name)))) later
]

found_within : (name : Bytes) (l : List Bytes) (i : ℕ) → IsSearched name l (some i) → i < length l
found_within name _ _ here = omega arith
found_within name _ _ (later d h) = omega (arith, found_within name _ _ h)

length-names : (l : List SessionInfo) → length (names l) ≡ length l
length-names [] = refl
length-names (s ∷ l) = ap suc (length-names l)

-- The answer is the first place of the name if it is there, and 0 otherwise.
pub data IsDefault (name : Bytes) (l : List Bytes) : ℤ → Type 0 where
  chosen : (i : ℕ) → i < length l → IsSearched name l (some i) → IsDefault name l (pos i)
  first : IsSearched name l none → IsDefault name l (pos 0)

index_or_first-IsDefault :
    (name : Bytes) (l : List Bytes) (o : Option ℕ)
    → IsSearched name l o
    → IsDefault name l (index_or_first o).0
unfolding index_or_first
index_or_first-IsDefault name l none h = first h
index_or_first-IsDefault name l (some i) h = chosen i (found_within name l i h) h

-- On a list with sessions and for a name that is not empty, the default session is the first
-- one of the sessions that count whose name is that name; if none has it, it is the first session.
pub find_default_session-IsDefault :
    (l : SessionList) (array : List SessionInfo) (name : Bytes)
    → l.sessions ≡ some array
    → 0 < l.count
    → is_empty name ≡ false
    → IsDefault name (names (take l.count array)) (find_default_session (some l) (some name)).0
unfolding find_default_session find_in
find_default_session-IsDefault l array name given some_session filled =
    let counts : (l.count == 0) ≡ false = ground arith in
    rw (given, counts, filled)
      (index_or_first-IsDefault name _ _ (find_name-IsSearched name (take l.count array) filled))

default_in :
    (count : ℕ) (name : Bytes) (o : Option ℕ) (l : List SessionInfo)
    → 0 < count
    → IsSearched name (names (take count l)) o
    → (i : ℕ) × ((index_or_first o).0 ≡ pos i) × (i < count)
unfolding index_or_first
default_in count name none l p h = (0, refl, p)
default_in count name (some i) l p h = (
  i,
  refl,
  omega (arith, found_within name _ i h, length-names (take count l), length-take count l),
)

-- Whatever the name is, the default session of a list with sessions is an index of it.
pub find_default_session-lt :
    (l : SessionList) (name : Bytes)
    → 0 < l.count
    → (i : ℕ) × ((find_default_session (some l) (some name)).0 ≡ pos i) × (i < l.count)
unfolding find_default_session find_in
find_default_session-lt l name p = elim (Option-cases l.sessions) [
  | inl missing ↦ rw missing (0, refl, p)
  | inr (array, given) ↦ elim (Bool-cases (is_empty name)) [
    | inl empty ↦
        let counts : (l.count == 0) ≡ false = ground arith in rw (given, counts, empty) (0, refl, p)
    | inr filled ↦
        let counts : (l.count == 0) ≡ false = ground arith in
        rw (given, counts, filled)
          (default_in l.count name _ array p
            (find_name-IsSearched name (take l.count array) filled))
  ]
]
