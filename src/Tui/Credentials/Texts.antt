-- ===== src/Tui/Credentials/Texts.antt =====
-- What `tui_get_credentials` of src/tui.c does to the two texts that the user sees.
use kia.Base.{
  ℕ, suc, ◌-◌, ◌≤◌, ◌≡◌, refl, ap, Bool, true, false, not, ◌&&◌, List, [], ◌∷◌, ◌++◌, none, some,
  ltb, if◌then◌else◌, length, length-append, arith, All, All-append, Bool-cases, Option-cases, inl,
  inr,
}
use kia.Code.{Code, success, error_system}
use kia.Text.{Bytes}
use kia.Tui.{Key, char, Turn}
use kia.Tui.Credentials.{
  Field, username_field, password_field, Action, submit, next_field, previous_field, erase, wipe,
  ignore, type, action_of, max_typed, other_field, is_submit,
}

-- What the user sees: the field and the two texts.
pub record Entry : Type 0 where
  pub field : Field
  pub user : Bytes
  pub secret : Bytes

abbrev pub drop_last : Bytes → Bytes
drop_last [] = []
drop_last (c ∷ []) = []
drop_last (c ∷ d ∷ cs) = c ∷ drop_last (d ∷ cs)

-- A text of at most 20 bytes that leaves room for the terminator.
abbrev pub add_last : ℕ → ℕ → Bytes → Bytes
add_last len c t = if ltb (length t) (len - 1) && ltb (length t) max_typed then t ++ c ∷ [] else t

-- A change of the field's text.
abbrev pub change_in : Field → (Bytes → Bytes) → (Bytes → Bytes) → Entry → Entry
change_in username_field on_user on_secret e = record e { user = on_user e.user }
change_in password_field on_user on_secret e = record e { secret = on_secret e.secret }

abbrev pub change : (Bytes → Bytes) → (Bytes → Bytes) → Entry → Entry
change on_user on_secret e = change_in e.field on_user on_secret e

abbrev pub edit_texts : ℕ → ℕ → Action → Entry → Entry
edit_texts user_len pass_len submit e = e
edit_texts user_len pass_len next_field e = record e { field = other_field e.field }
edit_texts user_len pass_len previous_field e = record e { field = other_field e.field }
edit_texts user_len pass_len erase e = change drop_last drop_last e
edit_texts user_len pass_len wipe e = change (λ _. []) (λ _. []) e
edit_texts user_len pass_len ignore e = e
edit_texts user_len pass_len (type c) e = change (add_last user_len c) (add_last pass_len c) e

abbrev pub is_nil : Bytes → Bool
is_nil [] = true
is_nil (_ ∷ _) = false

-- The specification of the loop: Enter ends it as soon as there is a user name.
abbrev pub enter_texts : ℕ → ℕ → List Turn → Entry → Code × Entry
enter_texts user_len pass_len [] e = (error_system, e)
enter_texts user_len pass_len (t ∷ ts) e =
    if not t.refreshed then (error_system, e) else elim t.key [
      | none ↦ (error_system, e)
      | some k ↦
          if is_submit (action_of k) && not (is_nil e.user)
          then (success, e)
          else enter_texts user_len pass_len ts (edit_texts user_len pass_len (action_of k) e)
    ]

-- Nothing typed yet.
abbrev pub no_texts : Entry
no_texts = record { field = username_field; user = []; secret = [] }

-- What a text may hold.
abbrev pub IsPrintable : Bytes → Type 0
IsPrintable = All (λ c. (32 ≤ c) × (c ≤ 126))

pub record IsTyped (e : Entry) : Type 0 where
  pub user_printable : IsPrintable e.user
  pub secret_printable : IsPrintable e.secret
  pub user_short : length e.user ≤ max_typed
  pub secret_short : length e.secret ≤ max_typed

drop_last-IsPrintable : (t : Bytes) → IsPrintable t → IsPrintable (drop_last t)
drop_last-IsPrintable [] h = tt
drop_last-IsPrintable (c ∷ []) h = tt
drop_last-IsPrintable (c ∷ d ∷ t) h = (h.0, drop_last-IsPrintable (d ∷ t) h.1)

pub length-drop_last : (c : ℕ) (t : Bytes) → length (drop_last (c ∷ t)) ≡ length t
length-drop_last c [] = refl
length-drop_last c (d ∷ t) = ap suc (length-drop_last d t)

length-drop_last-le : (t : Bytes) → length (drop_last t) ≤ length t
length-drop_last-le [] = omega arith
length-drop_last-le (c ∷ t) = omega (arith, length-drop_last c t)

add_last-IsPrintable :
    (n c : ℕ) (t : Bytes) → (32 ≤ c) × (c ≤ 126) → IsPrintable t → IsPrintable (add_last n c t)
add_last-IsPrintable n c t hc h =
    elim (Bool-cases (ltb (length t) (n - 1) && ltb (length t) max_typed)) [
      | inl b ↦ rw b (All-append _ t (c ∷ []) h (hc, tt))
      | inr b ↦ rw b h
    ]

length-add_last : (n c : ℕ) (t : Bytes) → length t ≤ max_typed → length (add_last n c t) ≤ max_typed
length-add_last n c t h = elim (Bool-cases (ltb (length t) (n - 1) && ltb (length t) max_typed)) [
  | inl b ↦ rw b (ground (arith, b, length-append t (c ∷ [])))
  | inr b ↦ rw b h
]

change_in-IsTyped :
    (x : Field) (g h : Bytes → Bytes) (e : Entry)
    → ((t : Bytes) → IsPrintable t → IsPrintable (g t))
    → ((t : Bytes) → length t ≤ max_typed → length (g t) ≤ max_typed)
    → ((t : Bytes) → IsPrintable t → IsPrintable (h t))
    → ((t : Bytes) → length t ≤ max_typed → length (h t) ≤ max_typed)
    → IsTyped e
    → IsTyped (change_in x g h e)
change_in-IsTyped username_field g h e gp gl hp hl i = record {
  user_printable = gp e.user i.user_printable;
  secret_printable = i.secret_printable;
  user_short = gl e.user i.user_short;
  secret_short = i.secret_short;
}
change_in-IsTyped password_field g h e gp gl hp hl i = record {
  user_printable = i.user_printable;
  secret_printable = hp e.secret i.secret_printable;
  user_short = i.user_short;
  secret_short = hl e.secret i.secret_short;
}

-- Only a printable byte is typed.
abbrev TypesPrintable : Action → Type 0
TypesPrintable (type c) = (32 ≤ c) × (c ≤ 126)
TypesPrintable _ = Unit {0}

pub action_of-TypesPrintable : (k : Key) → TypesPrintable (action_of k)
unfolding action_of
action_of-TypesPrintable (char c) = ground arith
action_of-TypesPrintable _ = tt

pub edit_texts-IsTyped :
    (user_len pass_len : ℕ) (a : Action) (e : Entry)
    → TypesPrintable a
    → IsTyped e
    → IsTyped (edit_texts user_len pass_len a e)
edit_texts-IsTyped ul pl submit e p i = i
edit_texts-IsTyped ul pl next_field e p i = ground arith
edit_texts-IsTyped ul pl previous_field e p i = ground arith
edit_texts-IsTyped ul pl erase e p i =
    change_in-IsTyped e.field _ _ e drop_last-IsPrintable
      (λ t h. omega (arith, length-drop_last-le t)) drop_last-IsPrintable
      (λ t h. omega (arith, length-drop_last-le t)) i
edit_texts-IsTyped ul pl wipe e p i =
    change_in-IsTyped e.field _ _ e (λ t h. tt) (λ t h. omega arith) (λ t h. tt)
      (λ t h. omega arith) i
edit_texts-IsTyped ul pl ignore e p i = i
edit_texts-IsTyped ul pl (type c) e p i =
    change_in-IsTyped e.field _ _ e (λ t h. add_last-IsPrintable ul c t p h) (length-add_last ul c)
      (λ t h. add_last-IsPrintable pl c t p h) (length-add_last pl c) i

-- The texts are printable and at most 20 bytes long, whatever was pressed.
pub enter_texts-IsTyped :
    (user_len pass_len : ℕ) (ts : List Turn) (e : Entry)
    → IsTyped e
    → IsTyped (enter_texts user_len pass_len ts e).1
enter_texts-IsTyped ul pl [] e i = i
enter_texts-IsTyped ul pl (t ∷ ts) e i = elim (Bool-cases t.refreshed) [
  | inr broken ↦ rw broken i
  | inl drawn ↦ elim (Option-cases t.key) [
    | inl ended ↦ rw (drawn, ended) i
    | inr (k, pressed) ↦ elim (Bool-cases (is_submit (action_of k) && not (is_nil e.user))) [
      | inl done ↦ rw (drawn, pressed, done) i
      | inr more ↦
          rw (drawn, pressed, more)
            (enter_texts-IsTyped ul pl ts (edit_texts ul pl (action_of k) e)
              (edit_texts-IsTyped ul pl (action_of k) e (action_of-TypesPrintable k) i))
    ]
  ]
]
