-- ===== src/Tui/Credentials/Inside.antt =====
-- Where `tui_get_credentials` of src/tui.c draws.
use kia.Base.{
  ℕ, ◌+◌, ◌≤◌, ◌<◌, ◌≡◌, refl, ap, ◌∙◌, true, ◌&&◌, ◌||◌, List, [], ◌∷◌, Option, none, some, ltb,
  leb, ◌==◌, length, length-append, length-replicate, arith, All, All-append, Bool-cases,
  Option-cases, inl, inr,
}
use kia.Text.{Bytes, cstr}
use kia.Text.Buffers.{cstr-pad}
use kia.Effect.{screen}
use kia.Tui.{Turn, Screen, too_small, pad_right}
use kia.Tui.Inside.{IsInside, length-pad_right}
use kia.Tui.Credentials.{
  username_field, password_field, action_of, Fields, edit, is_submit, enter_fields, draw_fields,
  cleared_fields, boxed, masked, cursor, max_input_len, tui_get_credentials, input_col, max_typed,
}
use kia.Tui.Credentials.Texts.{
  Entry, IsTyped, edit_texts, edit_texts-IsTyped, action_of-TypesPrintable, no_texts,
}
use kia.Tui.Credentials.Arrays.{Represents, Holds-nil}
use kia.Tui.Credentials.Refinement.{edit-Shows}
use kia.Tui.Credentials.Typed.{IsPrintable-IsText}

length-boxed : (t : Bytes) → length t ≤ max_typed → length (boxed t) ≡ 22
length-boxed t h =
    omega (arith, length-append (pad_right 20 t) (b']' ∷ []), length-pad_right 20 t h)

module _ (s : Screen) (tall : 10 ≤ s.max_y) (wide : 50 ≤ s.max_x) where
  -- A field and its cursor.
  field_inside :
      (t : Bytes) (n : ℕ)
      → length t ≤ max_typed
      → (n ≤ max_typed)
      → (input_col s + length (boxed t) ≤ s.max_x) × (input_col s + 1 + n < s.max_x)
  field_inside t n h hn = ground (arith, length-boxed t h)

  cursor-IsInside :
      (f : Fields)
      → input_col s + 1 + f.username_pos < s.max_x
      → input_col s + 1 + f.password_pos < s.max_x
      → IsInside s (screen (cursor s f))
  cursor-IsInside f hu hp =
      elim f.field as (λ x. IsInside s (screen (cursor s (record f { field = x })))) [
        | username_field ↦ (omega arith, hu)
        | password_field ↦ (omega arith, hp)
      ]

  draw_fields-IsInside :
      (f : Fields)
      → length (cstr f.username) ≤ max_typed
      → f.username_pos ≤ max_typed
      → f.password_pos ≤ max_typed
      → All (IsInside s) (draw_fields s f).1
  unfolding draw_fields
  draw_fields-IsInside f hu hup hpp =
      let named = field_inside (cstr f.username) f.username_pos hu hup in
      let hidden =
        field_inside (masked f.password_pos) f.password_pos
          (omega (arith, length-replicate {A = ℕ} f.password_pos b'*')) hpp in
      let short : leb f.password_pos max_input_len ≡ true = ground arith in
      rw short (
        (omega arith, omega arith),
        (
          (omega arith, named.0),
          (
            (omega arith, omega arith),
            (
              (omega arith, hidden.0),
              ((omega arith, omega arith), (cursor-IsInside f named.1 hidden.1, (tt, tt))),
            ),
          ),
        ),
      )

  drawn_texts :
      (user_len pass_len : ℕ) (e : Entry) (f : Fields)
      → Represents user_len pass_len e f
      → IsTyped e
      → All (IsInside s) (draw_fields s f).1
  drawn_texts user_len pass_len e f r i =
      let named : cstr f.username ≡ e.user =
        ap cstr r.user_holds.array_is
        ∙ cstr-pad user_len e.user (IsPrintable-IsText e.user i.user_printable) r.user_holds.room in
      draw_fields-IsInside f (omega (arith, ap length named, i.user_short))
        (omega (arith, r.user_holds.pos_is, i.user_short))
        (omega (arith, r.secret_holds.pos_is, i.secret_short))

  module _ (user_len pass_len : ℕ) (some_user : 0 < user_len) (some_pass : 0 < pass_len) where
    enter_fields-IsInside :
        (ts : List Turn) (e : Entry) (f : Fields)
        → Represents user_len pass_len e f
        → IsTyped e
        → All (IsInside s) (enter_fields s user_len pass_len ts f).1
    unfolding enter_fields
    enter_fields-IsInside [] e f r i =
        All-append (IsInside s) (draw_fields s f).1 [] (drawn_texts user_len pass_len e f r i) tt
    enter_fields-IsInside (t ∷ ts) e f r i =
        All-append (IsInside s) (draw_fields s f).1 _ (drawn_texts user_len pass_len e f r i)
          (elim (Bool-cases t.refreshed) [
            | inr broken ↦ rw broken tt
            | inl drawn ↦ elim (Option-cases t.key) [
              | inl ended ↦ rw (drawn, ended) tt
              | inr (k, pressed) ↦
                  elim (Bool-cases (is_submit (action_of k) && ltb 0 f.username_pos)) [
                    | inl done ↦ rw (drawn, pressed, done) tt
                    | inr more ↦
                        rw (drawn, pressed, more)
                          (enter_fields-IsInside ts (edit_texts user_len pass_len (action_of k) e)
                            (edit user_len pass_len (action_of k) f)
                            (edit-Shows user_len pass_len some_user some_pass (action_of k) r)
                            (edit_texts-IsTyped user_len pass_len (action_of k) e
                              (action_of-TypesPrintable k) i))
                  ]
            ]
          ])

-- Whatever the screen, the keys and the arrays are, every text that `tui_get_credentials` prints
-- stands inside the screen in one row, and the cursor is moved to a cell of the screen.
pub tui_get_credentials-IsInside :
    (s : Screen) (ts : List Turn) (u : Option Bytes) (user_len : ℕ) (p : Option Bytes)
    (pass_len : ℕ)
    → All (IsInside s) (tui_get_credentials s ts u user_len p pass_len).1
unfolding tui_get_credentials
tui_get_credentials-IsInside s ts none user_len p pass_len = tt
tui_get_credentials-IsInside s ts (some u) user_len none pass_len = tt
tui_get_credentials-IsInside s ts (some u) user_len (some p) pass_len =
    elim (Bool-cases (user_len == 0 || pass_len == 0)) [
      | inl empty ↦ rw empty tt
      | inr sized ↦ elim (Bool-cases s.started) [
        | inr off ↦ rw (sized, off) tt
        | inl on ↦ elim (Bool-cases (too_small s 10 50)) [
          | inl small ↦ rw (sized, on, small) tt
          | inr large ↦
              let h =
                enter_fields-IsInside s (ground arith) (ground arith) user_len pass_len
                  (ground arith) (ground arith) ts no_texts (cleared_fields user_len pass_len)
                  (record {
                    same_field = refl;
                    user_holds = Holds-nil user_len (ground arith);
                    secret_holds = Holds-nil pass_len (ground arith);
                  })
                  (record {
                    user_printable = tt;
                    secret_printable = tt;
                    user_short = omega arith;
                    secret_short = omega arith;
                  }) in
              simp (sized, on, large) (All-append (IsInside s) _ [] h tt)
        ]
      ]
    ]
