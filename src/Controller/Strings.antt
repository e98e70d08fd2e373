-- ===== src/Controller/Strings.antt =====
-- The strings in the context of src/controller.c, and the handlers that keep them.
pub mod Entered
pub mod Authenticated
pub mod Reached
use kia.Base.{
  ℕ, ◌≡◌, refl, subst, sym, ap, ◌∙◌, Bool, true, false, not, ◌&&◌, ◌||◌, List, [], ◌∷◌, some, none,
  Option, length, ltb, leb, ◌==◌, arith, Bool-cases, inl, inr, ℤ, ◌⊎◌, replicate,
}
use kia.Code.{Code, succeeded}
use kia.Text.{Bytes, cstr, is_empty, zeros, copy_string, IsBuffer, IsText, pad}
use kia.Text.Buffers.{copy_string-IsBuffer, zeros-IsBuffer, pad-IsBuffer, cstr-IsText}
use kia.Config.{Config, name_size}
use kia.Auth.{
  AuthGlobals, AuthState, Outcome, auth_init, auth_is_locked_out, authenticate, auth_reset_attempts,
  change_user,
}
use kia.Auth.Attempt.{
  Answer, no_session, denied, granted, answer, attempt, settle, punish, authenticate-attempt,
}
use kia.Session.Discover.{SessionList}
use kia.Session.Start.{Account}
use kia.Tui.{Screen, too_small}
use kia.Tui.Drawing.{tui_init}
use kia.Tui.Credentials.{tui_get_credentials}
use kia.Tui.Credentials.Texts.{enter_texts, enter_texts-IsTyped, no_texts}
use kia.Tui.Credentials.Typed.{IsPrintable-IsText}
use kia.Tui.Credentials.Refinement.{tui_get_credentials-enter_texts}
use kia.Controller.{
  AppState, state_init, state_load_config, state_check_autologin, state_show_login,
  state_get_credentials, state_select_session, state_authenticate, state_start_session, state_exit,
  AppContext, Round, out_of_range, secure_memzero, initial_context,
}
use kia.Controller.Handlers.{
  handle_init, handle_load_config, handle_check_autologin, handle_show_login,
  handle_get_credentials, handle_select_session, handle_start_session, start_screen, discovered,
  autologin_checked, autologin_known, check_credentials, check_selection, session_ended, or_same,
}
use kia.Controller.Handlers.Authenticate.{handle_authenticate, authenticated}
use kia.Controller.Loop.{handle, is_exit}
use kia.Controller.Stages.{Reachable, begin, round}

-- The three arrays that hold strings.
pub record HoldsStrings (username password known : Bytes) : Type 0 where
  pub user_held : IsBuffer name_size username
  pub password_held : IsBuffer name_size password
  pub known_held : IsBuffer name_size known

abbrev pub Holding : AppContext → Type 0
Holding ctx = HoldsStrings ctx.username ctx.password ctx.auth_state.username

abbrev pub arrays : AppContext → Bytes × Bytes × Bytes
arrays ctx = (ctx.username, ctx.password, ctx.auth_state.username)

pub untouched : (ctx ctx' : AppContext) → arrays ctx' ≡ arrays ctx → Holding ctx → Holding ctx'
untouched ctx ctx' e h = subst (λ a. HoldsStrings a.0 a.1 a.2) (sym e) h

secure_memzero-zeros : (s : Bytes) → secure_memzero s ≡ zeros (length s)
unfolding secure_memzero zeros replicate
secure_memzero-zeros [] = refl
secure_memzero-zeros (c ∷ cs) = ap (◌∷◌ 0) (secure_memzero-zeros cs)

pub secure_memzero-IsBuffer :
    (s : Bytes) → IsBuffer name_size s → IsBuffer name_size (secure_memzero s)
secure_memzero-IsBuffer s h =
    subst (IsBuffer name_size) (sym (secure_memzero-zeros s ∙ ap zeros h.sized))
      (zeros-IsBuffer name_size (omega arith))

module _ (r : Round) where
  pub handle_init-arrays : (ctx : AppContext) → arrays (handle_init r ctx).0.1 ≡ arrays ctx
  unfolding handle_init auth_init start_screen tui_init
  handle_init-arrays ctx = ground arith

  pub handle_load_config-arrays :
      (ctx : AppContext) → arrays (handle_load_config r ctx).0.1 ≡ arrays ctx
  unfolding handle_load_config discovered
  handle_load_config-arrays ctx = ground arith

  pub handle_select_session-arrays :
      (ctx : AppContext) → arrays (handle_select_session r ctx).0.1 ≡ arrays ctx
  unfolding handle_select_session check_selection
  handle_select_session-arrays ctx = ground arith

  pub handle_start_session-arrays :
      (ctx : AppContext) → arrays (handle_start_session r ctx).0.1 ≡ arrays ctx
  unfolding handle_start_session session_ended
  handle_start_session-arrays ctx = ground arith

  pub handle_show_login-arrays :
      (ctx : AppContext) → arrays (handle_show_login r ctx).0.1 ≡ arrays ctx
  unfolding handle_show_login
  handle_show_login-arrays ctx = refl

  handle_check_autologin-arrays :
      (ctx : AppContext)
      → let ctx' = (handle_check_autologin r ctx).0.1 in
        let user = copy_string name_size ctx.username (cstr ctx.config.autologin_user) in
        (arrays ctx' ≡ arrays ctx) ⊎ (arrays ctx' ≡ arrays (record ctx { username = user }))
  unfolding handle_check_autologin autologin_known autologin_checked
  handle_check_autologin-arrays ctx = ground arith

  pub handle_check_autologin-Holding :
      (ctx : AppContext) → Holding ctx → Holding (handle_check_autologin r ctx).0.1
  handle_check_autologin-Holding ctx h = elim (handle_check_autologin-arrays ctx) [
    | inl same ↦ untouched ctx (handle_check_autologin r ctx).0.1 same h
    | inr filled ↦
        let user = cstr ctx.config.autologin_user in
        untouched (record ctx { username = copy_string name_size ctx.username user })
          (handle_check_autologin r ctx).0.1 filled
          (record {
            user_held =
                copy_string-IsBuffer name_size ctx.username user (omega arith) h.user_held.sized
                  (cstr-IsText ctx.config.autologin_user);
            password_held = h.password_held;
            known_held = h.known_held;
          })
  ]
