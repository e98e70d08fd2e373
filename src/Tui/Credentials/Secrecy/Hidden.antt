-- ===== src/Tui/Credentials/Secrecy/Hidden.antt =====
-- Keys of `tui_get_credentials` of src/tui.c with the password hidden, and what they edit.
use kia.Base.{
  ℕ, ◌-◌, ◌≡◌, refl, sym, ◌&&◌, List, [], ◌∷◌, none, some, ltb, leb, if◌then◌else◌, arith,
  Bool-cases, inl, inr,
}
use kia.Text.{Bytes}
use kia.Tui.{Key, char, key_enter, key_down, key_up, key_backspace, other_key, Turn}
use kia.Tui.Credentials.{
  Field, username_field, password_field, Action, submit, next_field, previous_field, erase, wipe,
  ignore, type, action_of, Fields, edit, other_field, is_submit, max_typed, erase_in, wipe_in,
  type_in,
}

-- A character that the password field takes becomes an asterisk.
unfoldable pub hide_key : Field → Key → Key
hide_key password_field (char c) = if leb 32 c && leb c 126 then char b'*' else char c
hide_key _ k = k

hide_char : Field → ℕ → ℕ
hide_char username_field c = c
hide_char password_field c = b'*'

pub hide_action : Field → Action → Action
hide_action field (type c) = type (hide_char field c)
hide_action field a = a

pub field_after : Field → Action → Field
field_after field next_field = other_field field
field_after field previous_field = other_field field
field_after field _ = field

-- The same keys without the characters of the password; the field is the current one.
unfoldable pub hide : Field → List Turn → List Turn
unfolding hide_key field_after
hide field [] = []
hide field (t ∷ ts) = elim t.key [
  | none ↦ record t { key = none } ∷ hide field ts
  | some k ↦ record t { key = some (hide_key field k) } ∷ hide (field_after field (action_of k)) ts
]

username_same : (a : Action) → hide_action username_field a ≡ a
unfolding hide_action hide_char
username_same a = ground arith

pub action_of-hide_key :
    (field : Field) (k : Key) → action_of (hide_key field k) ≡ hide_action field (action_of k)
unfolding action_of hide_key hide_action hide_char
action_of-hide_key username_field k = sym (username_same (action_of k))
action_of-hide_key password_field (char c) = ground arith
action_of-hide_key password_field key_enter = refl
action_of-hide_key password_field key_down = refl
action_of-hide_key password_field key_up = refl
action_of-hide_key password_field key_backspace = refl
action_of-hide_key password_field other_key = refl

pub is_submit-hide_action :
    (field : Field) (a : Action) → is_submit (hide_action field a) ≡ is_submit a
unfolding hide_action
is_submit-hide_action field a = ground arith

-- The fields with another password.
abbrev pub with_password : Bytes → Fields → Fields
with_password p f = record f { password = p }

module _ (user_len pass_len : ℕ) where
  erase_in-field : (x : Field) (f : Fields) → (erase_in x f).field ≡ f.field
  unfolding erase_in
  erase_in-field username_field f = ground arith
  erase_in-field password_field f = ground arith

  wipe_in-field : (x : Field) (f : Fields) → (wipe_in user_len pass_len x f).field ≡ f.field
  unfolding wipe_in
  wipe_in-field username_field f = refl
  wipe_in-field password_field f = refl

  type_in-field :
      (c : ℕ) (x : Field) (f : Fields) → (type_in user_len pass_len c x f).field ≡ f.field
  unfolding type_in
  type_in-field c username_field f = ground arith
  type_in-field c password_field f = ground arith

  pub edit-field :
      (a : Action) (f : Fields) → (edit user_len pass_len a f).field ≡ field_after f.field a
  unfolding edit field_after
  edit-field submit f = refl
  edit-field next_field f = refl
  edit-field previous_field f = refl
  edit-field erase f = erase_in-field f.field f
  edit-field wipe f = wipe_in-field f.field f
  edit-field ignore f = refl
  edit-field (type c) f = type_in-field c f.field f

  -- The fields differ in the password only.
  abbrev pub SameBut : Fields → Fields → Type 0
  SameBut g f = (p : Bytes) × (g ≡ with_password p f)

  erase_in-SameBut :
      (x : Field) (f : Fields) (p : Bytes) → SameBut (erase_in x (with_password p f)) (erase_in x f)
  unfolding erase_in
  erase_in-SameBut username_field f p = elim (Bool-cases (ltb 0 f.username_pos)) [
    | inl b ↦ rw b (p, refl)
    | inr b ↦ rw b (p, refl)
  ]
  erase_in-SameBut password_field f p = elim (Bool-cases (ltb 0 f.password_pos)) [
    | inl b ↦ rw b (_, refl)
    | inr b ↦ rw b (p, refl)
  ]

  wipe_in-SameBut :
      (x : Field) (f : Fields) (p : Bytes)
      → SameBut (wipe_in user_len pass_len x (with_password p f)) (wipe_in user_len pass_len x f)
  unfolding wipe_in
  wipe_in-SameBut username_field f p = (p, refl)
  wipe_in-SameBut password_field f p = (_, refl)

  typed-SameBut :
      (x : Field) (c : ℕ) (f : Fields) (p : Bytes)
      → SameBut
          (type_in user_len pass_len (hide_char x c) x (with_password p f))
          (type_in user_len pass_len c x f)
  unfolding type_in hide_char
  typed-SameBut username_field c f p =
      elim (Bool-cases (ltb f.username_pos (user_len - 1) && ltb f.username_pos max_typed)) [
        | inl b ↦ rw b (p, refl)
        | inr b ↦ rw b (p, refl)
      ]
  typed-SameBut password_field c f p =
      elim (Bool-cases (ltb f.password_pos (pass_len - 1) && ltb f.password_pos max_typed)) [
        | inl b ↦ rw b (_, refl)
        | inr b ↦ rw b (p, refl)
      ]

  pub edit-SameBut :
      (a : Action) (f : Fields) (p : Bytes)
      → SameBut
          (edit user_len pass_len (hide_action f.field a) (with_password p f))
          (edit user_len pass_len a f)
  unfolding edit hide_action
  edit-SameBut submit f p = (p, refl)
  edit-SameBut next_field f p = (p, refl)
  edit-SameBut previous_field f p = (p, refl)
  edit-SameBut erase f p = erase_in-SameBut f.field f p
  edit-SameBut wipe f p = wipe_in-SameBut f.field f p
  edit-SameBut ignore f p = (p, refl)
  edit-SameBut (type c) f p = typed-SameBut f.field c f p
