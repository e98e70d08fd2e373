-- ===== src/Controller/Login.antt =====
-- A login that goes well, through the handlers of src/controller.c.
pub mod Rounds
use kia.Base.{
  ℕ, ◌<◌, ◌≡◌, refl, sym, subst, ap, ◌∙◌, true, false, not, ◌||◌, List, [], ◌∷◌, Option, some,
  length, ltb, arith, ℤ, pos,
}
use kia.Code.{Code, success}
use kia.Text.{Bytes, cstr, is_empty}
use kia.Config.{name_size}
use kia.Auth.{
  AuthState, AuthGlobals, Outcome, auth_is_locked_out, authenticate, is_zero_ℤ, auth_reset_attempts,
}
use kia.Auth.Attempt.{granted, answer}
use kia.Auth.Lockout.{authenticate-success_iff}
use kia.Session.Start.{session_start, Account}
use kia.Tui.Credentials.{tui_get_credentials}
use kia.Tui.Menu.{tui_select_session}
use kia.Controller.{
  state_show_login, state_get_credentials, state_select_session, state_authenticate,
  state_start_session, state_exit, AppContext, Round, find_default_session, session_at,
  out_of_range, secure_memzero,
}
use kia.Controller.Handlers.{
  handle_show_login, handle_get_credentials, handle_select_session, handle_start_session,
  check_credentials, check_selection, session_ended,
}
use kia.Controller.Handlers.Authenticate.{handle_authenticate, authenticated}
use kia.Controller.Loop.{handle, is_exit, run_rounds}
use kia.Controller.Login.Rounds.{
  run_rounds-step, run_rounds-end, drawn, typed_in, selected, logged_in, session_done,
}

-- What the user, PAM and the system do in the rounds of a login from the context `ctx`: two texts
-- that are accepted, a session of the list, no lockout, a password that PAM takes, and a session
-- that ends with status 0.
pub record GoesWell (ctx : AppContext) (typing choosing login starting : Round) (u p : Bytes)
    (i : ℕ) : Type 0 where
  pub typed :
      (tui_get_credentials typing.screen typing.turns
        (some ctx.username)
        name_size
        (some ctx.password)
        name_size).0
      ≡ (success, some u, some p)
  pub user_given : is_empty (cstr u) ≡ false
  pub user_fits : ltb 255 (length (cstr u)) ≡ false
  pub password_given : is_empty (cstr p) ≡ false
  pub chosen :
      (tui_select_session choosing.screen choosing.turns
        (some ctx.sessions)
        (find_default_session (some ctx.sessions) (some (cstr ctx.config.default_session))).0).0
      ≡ pos i
  pub within : i < ctx.sessions.count
  pub free : is_zero_ℤ ctx.auth_state.lockout_until ≡ true
  pub taken : answer login.auth.pam (cstr u) (cstr p) ≡ granted
  pub ran :
      (session_start starting.start (session_at ctx.sessions (pos i)) (some (cstr u))).0.0 ≡ success

-- From the login screen, five rounds end the loop with success in the state EXIT if nothing goes
-- wrong in them: a name and a password are typed that are not empty and fit, a session of the list
-- is chosen, no lockout is set, PAM takes the password and the account, and the session ends with
-- status 0.
pub run_rounds-login :
    (ctx : AppContext) (drawing typing choosing login starting : Round) (g : AuthGlobals)
    (u p : Bytes) (i : ℕ)
    → ctx.state ≡ state_show_login
    → ctx.running ≡ true
    → GoesWell ctx typing choosing login starting u p i
    → let run =
        (run_rounds (drawing ∷ typing ∷ choosing ∷ login ∷ starting ∷ []) success ctx g).0 in
      (run.0 ≡ some success) × (run.1.state ≡ state_exit)
unfolding is_exit
run_rounds-login ctx drawing typing choosing login starting g u p i shown on w =
    let c1 = record ctx { state = state_get_credentials } in
    let c2 = record ctx { username = u; password = p; state = state_select_session } in
    let c3 = record c2 { selected_session = pos i; state = state_authenticate } in
    let o = (authenticate login.auth (cstr u) (cstr p) ctx.config ctx.auth_state g).0 in
    let c4 = record c3 {
      password = secure_memzero p;
      auth_state = auth_reset_attempts o.1;
      state = state_start_session;
    } in
    let e0 =
      subst (λ s. (handle s drawing success ctx g).0 ≡ ((success, c1), g)) (sym shown)
        (drawn drawing success ctx g) in
    let run =
      run_rounds-step drawing _ success ctx c1 g g on (ap is_exit shown) e0
      ∙ run_rounds-step typing _ success c1 c2 g g on refl
          (typed_in typing success c1 g u p w.typed w.user_given w.user_fits w.password_given)
      ∙ run_rounds-step choosing _ success c2 c3 g g on refl
          (selected choosing success c2 g i w.chosen w.within)
      ∙ run_rounds-step login _ success c3 c4 g o.2 on refl
          (logged_in login success c3 g w.free w.taken)
      ∙ run_rounds-step starting _ success c4 (record c4 { state = state_exit }) o.2 o.2 on refl
          (session_done starting success c4 o.2 i refl w.within w.ran)
      ∙ run_rounds-end (record c4 { state = state_exit }) o.2 on refl in
    (ap (λ r. r.0) run, ap (λ r. r.1.state) run)
