-- ===== src/Controller/Strings/Entered.antt =====
-- The arrays of the context of src/controller.c after the credentials are read.
use kia.Base.{◌≡◌, subst, sym, some, arith, Bool-cases, inl, inr, ◌⊎◌}
use kia.Code.{Code}
use kia.Text.{Bytes, zeros, IsBuffer}
use kia.Text.Buffers.{zeros-IsBuffer, pad-IsBuffer}
use kia.Config.{name_size}
use kia.Tui.{Screen, too_small}
use kia.Tui.Credentials.{tui_get_credentials}
use kia.Tui.Credentials.Texts.{enter_texts, enter_texts-IsTyped, no_texts}
use kia.Tui.Credentials.Typed.{IsPrintable-IsText}
use kia.Tui.Credentials.Refinement.{tui_get_credentials-enter_texts}
use kia.Controller.{AppContext, Round, secure_memzero}
use kia.Controller.Handlers.{handle_get_credentials, check_credentials, or_same}
use kia.Controller.Strings.{Holding, arrays, untouched, secure_memzero-IsBuffer}

module _ (r : Round) where
  check_credentials-arrays :
      (screen : Screen) (code : Code) (ctx : AppContext)
      → let ctx' = (check_credentials screen code ctx).0.1 in
        (arrays ctx' ≡ arrays ctx)
        ⊎ (arrays ctx' ≡ (zeros name_size, secure_memzero ctx.password, ctx.auth_state.username))
  unfolding check_credentials
  check_credentials-arrays screen code ctx = ground arith

  check_credentials-Holding :
      (screen : Screen) (code : Code) (ctx : AppContext)
      → Holding ctx
      → Holding (check_credentials screen code ctx).0.1
  check_credentials-Holding screen code ctx h = elim (check_credentials-arrays screen code ctx) [
    | inl same ↦ untouched ctx (check_credentials screen code ctx).0.1 same h
    | inr cleared ↦
        untouched
          (record ctx { username = zeros name_size; password = secure_memzero ctx.password })
          (check_credentials screen code ctx).0.1 cleared
          (record {
            user_held = zeros-IsBuffer name_size (omega arith);
            password_held = secure_memzero-IsBuffer ctx.password h.password_held;
            known_held = h.known_held;
          })
  ]

  -- What `tui_get_credentials` leaves in the arrays of the context.
  credentials_held :
      (u p : Bytes)
      → IsBuffer name_size u
      → IsBuffer name_size p
      → let o = (tui_get_credentials r.screen r.turns (some u) name_size (some p) name_size).0 in
        IsBuffer name_size (or_same u o.1) × IsBuffer name_size (or_same p o.2)
  unfolding tui_get_credentials
  credentials_held u p hu hp = elim (Bool-cases r.screen.started) [
    | inr off ↦ rw off (hu, hp)
    | inl on ↦ elim (Bool-cases (too_small r.screen 10 50)) [
      | inl small ↦ rw (on, small) (hu, hp)
      | inr large ↦
          let e = (enter_texts name_size name_size r.turns no_texts).1 in
          let typed = enter_texts-IsTyped name_size name_size r.turns no_texts (record {
            user_printable = tt;
            secret_printable = tt;
            user_short = omega arith;
            secret_short = omega arith;
          }) in
          let filled =
            tui_get_credentials-enter_texts r.screen r.turns u p name_size name_size (omega arith)
              (omega arith) on large in
          subst (λ o. IsBuffer name_size (or_same u o.1) × IsBuffer name_size (or_same p o.2))
            (sym filled)
            (
              pad-IsBuffer name_size e.user (IsPrintable-IsText e.user typed.user_printable)
                  (omega (arith, typed.user_short)),
              pad-IsBuffer name_size e.secret (IsPrintable-IsText e.secret typed.secret_printable)
                  (omega (arith, typed.secret_short)),
            )
    ]
  ]

  pub handle_get_credentials-Holding :
      (ctx : AppContext) → Holding ctx → Holding (handle_get_credentials r ctx).0.1
  unfolding handle_get_credentials
  handle_get_credentials-Holding ctx h =
      let held = credentials_held ctx.username ctx.password h.user_held h.password_held in
      check_credentials-Holding r.screen _ _
        (record { user_held = held.0; password_held = held.1; known_held = h.known_held })
