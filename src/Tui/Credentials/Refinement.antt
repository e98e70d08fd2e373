-- ===== src/Tui/Credentials/Refinement.antt =====
-- The two arrays of `tui_get_credentials` in src/tui.c refine two texts that are edited at their
-- ends.
use kia.Base.{
  ℕ, ◌<◌, ◌≡◌, refl, subst, ap, true, false, not, ◌&&◌, ◌||◌, List, [], ◌∷◌, some, ltb, ltb→lt,
  ◌==◌, length, arith, Bool-cases, Option-cases, inl, inr,
}
use kia.Code.{Code}
use kia.Text.{Bytes, pad}
use kia.Tui.{Turn, Screen, too_small}
use kia.Tui.Credentials.{
  Field, username_field, password_field, Action, submit, next_field, previous_field, erase, wipe,
  ignore, type, action_of, Fields, other_field, edit, finish, is_submit, enter_fields,
  tui_get_credentials, erase_in, wipe_in, type_in,
}
use kia.Tui.Credentials.Texts.{
  Entry, drop_last, add_last, change_in, edit_texts, is_nil, enter_texts, no_texts,
}
use kia.Tui.Credentials.Arrays.{
  Holds, Represents, Holds-drop, Holds-drop_nil, Holds-typed, Holds-full, Holds-nil, Holds-end,
  has_room,
}

module _ (user_len pass_len : ℕ) (some_user : 0 < user_len) (some_pass : 0 < pass_len) where
  abbrev Shows : Entry → Fields → Type 0
  Shows = Represents user_len pass_len

  with_user :
      {e : Entry} {f : Fields} (t array : Bytes) (pos : ℕ)
      → Shows e f
      → Holds user_len t array pos
      → Shows (record e { user = t }) (record f { username = array; username_pos = pos })
  with_user t array pos r h = record {
    same_field = r.same_field;
    user_holds = h;
    secret_holds = r.secret_holds;
  }

  with_secret :
      {e : Entry} {f : Fields} (t array : Bytes) (pos : ℕ)
      → Shows e f
      → Holds pass_len t array pos
      → Shows (record e { secret = t }) (record f { password = array; password_pos = pos })
  with_secret t array pos r h = record {
    same_field = r.same_field;
    user_holds = r.user_holds;
    secret_holds = h;
  }

  erase-Shows :
      (x : Field) {e : Entry} {f : Fields}
      → Shows e f
      → Shows (change_in x drop_last drop_last e) (erase_in x f)
  unfolding erase_in
  erase-Shows username_field {e} {f} r = elim (Bool-cases (ltb 0 f.username_pos)) [
    | inl b ↦ rw b (with_user _ _ _ r (Holds-drop e.user r.user_holds (ltb→lt 0 _ b)))
    | inr b ↦ rw b (with_user _ _ _ r (Holds-drop_nil e.user r.user_holds b))
  ]
  erase-Shows password_field {e} {f} r = elim (Bool-cases (ltb 0 f.password_pos)) [
    | inl b ↦ rw b (with_secret _ _ _ r (Holds-drop e.secret r.secret_holds (ltb→lt 0 _ b)))
    | inr b ↦ rw b (with_secret _ _ _ r (Holds-drop_nil e.secret r.secret_holds b))
  ]

  wipe-Shows :
      (x : Field) {e : Entry} {f : Fields}
      → Shows e f
      → Shows (change_in x (λ _. []) (λ _. []) e) (wipe_in user_len pass_len x f)
  unfolding wipe_in
  wipe-Shows username_field r = with_user [] _ 0 r (Holds-nil user_len some_user)
  wipe-Shows password_field r = with_secret [] _ 0 r (Holds-nil pass_len some_pass)

  type-Shows :
      (c : ℕ) (x : Field) {e : Entry} {f : Fields}
      → Shows e f
      → Shows
          (change_in x (add_last user_len c) (add_last pass_len c) e)
          (type_in user_len pass_len c x f)
  unfolding type_in
  type-Shows c username_field {e} {f} r = elim (Bool-cases (has_room user_len f.username_pos)) [
    | inl b ↦ rw b (with_user _ _ _ r (Holds-typed e.user c r.user_holds b))
    | inr b ↦ rw b (with_user _ _ _ r (Holds-full e.user c r.user_holds b))
  ]
  type-Shows c password_field {e} {f} r = elim (Bool-cases (has_room pass_len f.password_pos)) [
    | inl b ↦ rw b (with_secret _ _ _ r (Holds-typed e.secret c r.secret_holds b))
    | inr b ↦ rw b (with_secret _ _ _ r (Holds-full e.secret c r.secret_holds b))
  ]

  moved :
      {e : Entry} {f : Fields}
      → Shows e f
      → Shows (record e { field = other_field e.field }) (record f { field = other_field f.field })
  moved r = record {
    same_field = ap other_field r.same_field;
    user_holds = r.user_holds;
    secret_holds = r.secret_holds;
  }

  pub edit-Shows :
      (a : Action) {e : Entry} {f : Fields}
      → Shows e f
      → Shows (edit_texts user_len pass_len a e) (edit user_len pass_len a f)
  unfolding edit
  edit-Shows submit r = r
  edit-Shows next_field r = moved r
  edit-Shows previous_field r = moved r
  edit-Shows erase {e} {f} r =
      subst (λ x. Shows (change_in x drop_last drop_last e) (erase_in f.field f)) r.same_field
        (erase-Shows f.field r)
  edit-Shows wipe {e} {f} r =
      subst (λ x. Shows (change_in x (λ _. []) (λ _. []) e) (wipe_in user_len pass_len f.field f))
        r.same_field (wipe-Shows f.field r)
  edit-Shows ignore r = r
  edit-Shows (type c) {e} {f} r =
      subst
        (λ x.
          Shows (change_in x (add_last user_len c) (add_last pass_len c) e)
            (type_in user_len pass_len c f.field f))
        r.same_field (type-Shows c f.field r)

  finish-Shows : {e : Entry} {f : Fields} → Shows e f → Shows e (finish f)
  finish-Shows {e} {f} r = record {
    same_field = r.same_field;
    user_holds = record {
      array_is = Holds-end e.user r.user_holds;
      pos_is = r.user_holds.pos_is;
      room = r.user_holds.room;
    };
    secret_holds = record {
      array_is = Holds-end e.secret r.secret_holds;
      pos_is = r.secret_holds.pos_is;
      room = r.secret_holds.room;
    };
  }

  named_same : (t : Bytes) (pos : ℕ) → pos ≡ length t → ltb 0 pos ≡ not (is_nil t)
  named_same [] pos e = rw e refl
  named_same (c ∷ t) pos e = rw e (ground arith)

  abbrev Agrees : Code × Fields → Code × Entry → Type 0
  Agrees r q = (r.0 ≡ q.0) × Shows q.1 r.1

  -- The loop on the arrays ends as the specification does, in a state that shows its texts.
  enter_fields-Agrees :
      (screen : Screen) (ts : List Turn) (e : Entry) (f : Fields)
      → Shows e f
      → Agrees (enter_fields screen user_len pass_len ts f).0 (enter_texts user_len pass_len ts e)
  unfolding enter_fields
  enter_fields-Agrees screen [] e f r = (refl, r)
  enter_fields-Agrees screen (t ∷ ts) e f r = elim (Bool-cases t.refreshed) [
    | inr broken ↦ rw broken (refl, r)
    | inl drawn ↦ elim (Option-cases t.key) [
      | inl ended ↦ rw (drawn, ended) (refl, r)
      | inr (k, pressed) ↦
          let same = named_same e.user f.username_pos r.user_holds.pos_is in
          let go =
            enter_fields-Agrees screen ts (edit_texts user_len pass_len (action_of k) e)
              (edit user_len pass_len (action_of k) f) (edit-Shows (action_of k) r) in
          elim (Bool-cases (is_submit (action_of k) && not (is_nil e.user))) [
            | inl done ↦ rw (drawn, pressed, same, done) (refl, finish-Shows r)
            | inr more ↦ rw (drawn, pressed, same, more) go
          ]
    ]
  ]

-- With a screen that has started and is large enough, and two arrays that are not empty,
-- `tui_get_credentials` does what the editing of two texts says: it returns that code, and each
-- array holds its text with zeros behind it, so that no byte of what was erased is left.
pub tui_get_credentials-enter_texts :
    (screen : Screen) (ts : List Turn) (u p : Bytes) (user_len pass_len : ℕ)
    → 0 < user_len
    → 0 < pass_len
    → screen.started ≡ true
    → too_small screen 10 50 ≡ false
    → let (code, e) = enter_texts user_len pass_len ts no_texts in
      (tui_get_credentials screen ts (some u) user_len (some p) pass_len).0
      ≡ (code, some (pad user_len e.user), some (pad pass_len e.secret))
unfolding tui_get_credentials
tui_get_credentials-enter_texts screen ts u p user_len pass_len hu hp started large =
    let sized : (user_len == 0 || pass_len == 0) ≡ false = ground arith in
    let start : Represents user_len pass_len no_texts _ = record {
      same_field = refl;
      user_holds = Holds-nil user_len hu;
      secret_holds = Holds-nil pass_len hp;
    } in
    let (code, shows) = enter_fields-Agrees user_len pass_len hu hp screen ts no_texts _ start in
    rw (sized, started, large)
      (λ i. (code i, some (shows.user_holds.array_is i), some (shows.secret_holds.array_is i)))
