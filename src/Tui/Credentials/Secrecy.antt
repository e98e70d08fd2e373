-- ===== src/Tui/Credentials/Secrecy.antt =====
-- What `tui_get_credentials` of src/tui.c shows of the password.
pub mod Hidden
use kia.Base.{
  ℕ, ◌-◌, ◌≡◌, refl, ap, sym, ◌∙◌, ◌&&◌, List, [], ◌∷◌, ◌++◌, Option, ◌||◌, none, some, ltb, leb,
  ◌==◌, if◌then◌else◌, arith, Bool-cases, Option-cases, inl, inr,
}
use kia.Code.{Code}
use kia.Text.{Bytes}
use kia.Effect.{Eff, ◌>>◌}
use kia.Tui.{
  Key, char, key_enter, key_down, key_up, key_backspace, other_key, Turn, Screen, too_small,
}
use kia.Tui.Credentials.{
  Field, username_field, password_field, Action, submit, next_field, previous_field, erase, wipe,
  ignore, type, action_of, Fields, edit, other_field, is_submit, enter_fields, draw_fields,
  max_typed, tui_get_credentials, cleared_fields, erase_in, wipe_in, type_in,
}
use kia.Tui.Credentials.Secrecy.Hidden.{
  hide_key, field_after, hide, action_of-hide_key, is_submit-hide_action, with_password, edit-field,
  SameBut, edit-SameBut,
}

module _ (user_len pass_len : ℕ) where
  -- The same code, the same user name, and the same calls of ncurses.
  record SameShown (m n : Eff (Code × Fields)) : Type 0 where
    code : m.0.0 ≡ n.0.0
    user : m.0.1.username ≡ n.0.1.username
    drawings : m.1 ≡ n.1

  abbrev Hidden : Screen → List Turn → List Turn → Fields → Bytes → Type 0
  Hidden screen ts' ts f p =
      SameShown (enter_fields screen user_len pass_len ts' (with_password p f))
        (enter_fields screen user_len pass_len ts f)

  behind :
      (screen : Screen) (f : Fields) (m n : Eff (Code × Fields))
      → SameShown m n
      → SameShown (draw_fields screen f >> m) (draw_fields screen f >> n)
  behind screen f m n h = record {
    code = h.code;
    user = h.user;
    drawings = ap (λ es. (draw_fields screen f).1 ++ es) h.drawings;
  }

  -- Behind a key that does not end the loop.
  edited-Hidden :
      (screen : Screen) (ts : List Turn) (k : Key) (f : Fields) (p : Bytes)
      → ((f : Fields) (p : Bytes) → Hidden screen (hide f.field ts) ts f p)
      → SameShown
          (enter_fields screen user_len pass_len
            (hide (field_after f.field (action_of k)) ts)
            (edit user_len pass_len (action_of (hide_key f.field k)) (with_password p f)))
          (enter_fields screen user_len pass_len ts (edit user_len pass_len (action_of k) f))
  edited-Hidden screen ts k f p go =
      let (p', same) = edit-SameBut user_len pass_len (action_of k) f p in
      let f' = edit user_len pass_len (action_of k) f in
      rw (action_of-hide_key f.field k, same, sym (edit-field user_len pass_len (action_of k) f))
        (go f' p')

  enter_fields-Hidden :
      (screen : Screen) (ts : List Turn) (f : Fields) (p : Bytes)
      → Hidden screen (hide f.field ts) ts f p
  unfolding enter_fields hide draw_fields
  enter_fields-Hidden screen [] f p = record { code = refl; user = refl; drawings = refl }
  enter_fields-Hidden screen (t ∷ ts) f p = elim (Bool-cases t.refreshed) [
    | inr broken ↦ elim (Option-cases t.key) [
      | inl ended ↦ rw (ended, broken) (record { code = refl; user = refl; drawings = refl })
      | inr (k, pressed) ↦
          rw (pressed, broken) (record { code = refl; user = refl; drawings = refl })
    ]
    | inl drawn ↦ elim (Option-cases t.key) [
      | inl ended ↦ rw (ended, drawn) (record { code = refl; user = refl; drawings = refl })
      | inr (k, pressed) ↦
          let same : is_submit (action_of (hide_key f.field k)) ≡ is_submit (action_of k) =
            ap is_submit (action_of-hide_key f.field k)
            ∙ is_submit-hide_action f.field (action_of k) in
          elim (Bool-cases (is_submit (action_of k) && ltb 0 f.username_pos)) [
            | inl done ↦
                rw (pressed, drawn, same, done)
                  (record { code = refl; user = refl; drawings = refl })
            | inr more ↦
                rw (pressed, drawn, same, more)
                  (behind screen f _ _
                    (edited-Hidden screen ts k f p (enter_fields-Hidden screen ts)))
          ]
    ]
  ]

-- Whatever the screen, the keys and the arrays are, `tui_get_credentials` returns the same code and
-- user name, and makes the same calls of ncurses, when every character that is typed in the field
-- of the password is an asterisk instead: of the password, only its length is drawn.
pub tui_get_credentials-hide :
    (screen : Screen) (ts : List Turn) (u : Option Bytes) (user_len : ℕ) (p : Option Bytes)
    (pass_len : ℕ)
    → let shown = tui_get_credentials screen (hide username_field ts) u user_len p pass_len in
      let real = tui_get_credentials screen ts u user_len p pass_len in
      (shown.0.0 ≡ real.0.0) × (shown.0.1 ≡ real.0.1) × (shown.1 ≡ real.1)
unfolding tui_get_credentials
tui_get_credentials-hide screen ts none user_len p pass_len = (refl, refl, refl)
tui_get_credentials-hide screen ts (some u) user_len none pass_len = (refl, refl, refl)
tui_get_credentials-hide screen ts (some u) user_len (some p) pass_len =
    elim (Bool-cases (user_len == 0 || pass_len == 0)) [
      | inl empty ↦ rw empty (refl, refl, refl)
      | inr sized ↦ elim (Bool-cases screen.started) [
        | inr off ↦ rw (sized, off) (refl, refl, refl)
        | inl on ↦ elim (Bool-cases (too_small screen 10 50)) [
          | inl small ↦ rw (sized, on, small) (refl, refl, refl)
          | inr large ↦
              let h =
                enter_fields-Hidden user_len pass_len screen ts (cleared_fields user_len pass_len)
                  (cleared_fields user_len pass_len).password in
              simp (sized, on, large) (h.code, ap some h.user, ap (λ es. es ++ []) h.drawings)
        ]
      ]
    ]
