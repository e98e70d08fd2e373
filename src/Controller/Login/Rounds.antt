-- ===== src/Controller/Login/Rounds.antt =====
-- The rounds of a login that goes well, one by one: what the handlers of src/controller.c leave.
use kia.Base.{
  ℕ, ◌<◌, ◌≡◌, refl, ap, ◌∙◌, true, false, not, ◌||◌, List, [], ◌∷◌, Option, some, length, ltb,
  arith, ℤ, pos,
}
use kia.Code.{Code, success}
use kia.Text.{Bytes, cstr, is_empty}
use kia.Config.{name_size}
use kia.Auth.{
  AuthState, AuthGlobals, Outcome, auth_is_locked_out, authenticate, is_zero_ℤ, auth_reset_attempts,
}
use kia.Auth.Attempt.{granted, answer}
use kia.Auth.Lockout.{authenticate-success_iff}
use kia.Session.Start.{session_start, Account}
use kia.Tui.Credentials.{tui_get_credentials}
use kia.Tui.Menu.{tui_select_session}
use kia.Controller.{
  state_show_login, state_get_credentials, state_select_session, state_authenticate,
  state_start_session, state_exit, AppContext, Round, find_default_session, session_at,
  out_of_range, secure_memzero,
}
use kia.Controller.Handlers.{
  handle_show_login, handle_get_credentials, handle_select_session, handle_start_session,
  check_credentials, check_selection, session_ended,
}
use kia.Controller.Handlers.Authenticate.{handle_authenticate, authenticated}
use kia.Controller.Loop.{handle, is_exit, run_rounds}

free_now :
    (now : ℤ) (s : AuthState)
    → is_zero_ℤ s.lockout_until ≡ true
    → auth_is_locked_out now s ≡ (false, s)
unfolding auth_is_locked_out
free_now now s h = rw h refl

-- A round that goes well leads to the next one.
pub run_rounds-step :
    (r : Round) (rs : List Round) (result : Code) (ctx ctx' : AppContext) (g g' : AuthGlobals)
    → ctx.running ≡ true
    → is_exit ctx.state ≡ false
    → (handle ctx.state r result ctx g).0 ≡ ((success, ctx'), g')
    → (run_rounds (r ∷ rs) result ctx g).0 ≡ (run_rounds rs success ctx' g').0
unfolding run_rounds
run_rounds-step r rs result ctx ctx' g g' on more e =
    let go : (not ctx.running || is_exit ctx.state) ≡ false = ground arith in
    rw (go, run_rounds) (rw (e, run_rounds) refl)

pub run_rounds-end :
    (ctx : AppContext) (g : AuthGlobals)
    → ctx.running ≡ true
    → ctx.state ≡ state_exit
    → (run_rounds [] success ctx g).0 ≡ (some success, ctx, g)
unfolding run_rounds is_exit
run_rounds-end ctx g on done = ground arith

module _ (r : Round) (result : Code) (ctx : AppContext) (g : AuthGlobals) where
  pub drawn :
      (handle state_show_login r result ctx g).0
      ≡ ((success, record ctx { state = state_get_credentials }), g)
  unfolding handle handle_show_login
  drawn = refl

  pub typed_in :
      (u p : Bytes)
      → (tui_get_credentials r.screen r.turns
          (some ctx.username)
          name_size
          (some ctx.password)
          name_size).0
        ≡ (success, some u, some p)
      → is_empty (cstr u) ≡ false
      → ltb 255 (length (cstr u)) ≡ false
      → is_empty (cstr p) ≡ false
      → (handle state_get_credentials r result ctx g).0
        ≡ ((success, record ctx { username = u; password = p; state = state_select_session }), g)
  unfolding handle handle_get_credentials check_credentials
  typed_in u p typed given fits secret = rw typed (rw (given, fits, secret) refl)

  pub selected :
      (i : ℕ)
      → (tui_select_session r.screen r.turns
          (some ctx.sessions)
          (find_default_session (some ctx.sessions) (some (cstr ctx.config.default_session))).0).0
        ≡ pos i
      → i < ctx.sessions.count
      → (handle state_select_session r result ctx g).0
        ≡ ((success, record ctx { selected_session = pos i; state = state_authenticate }), g)
  unfolding handle handle_select_session check_selection
  selected i chosen within =
      let inside : out_of_range (pos i) ctx.sessions.count ≡ false = ground arith in
      rw chosen (rw inside refl)

  authenticated_success :
      (o : Outcome)
      → o.0 ≡ success
      → (authenticated r.screen ctx o).0 ≡ (
        (
          success,
          record ctx {
            password = secure_memzero ctx.password;
            auth_state = auth_reset_attempts o.1;
            state = state_start_session;
          },
        ),
        o.2,
      )
  unfolding authenticated
  authenticated_success (code, s, g') ok = rw ok refl

  pub logged_in :
      is_zero_ℤ ctx.auth_state.lockout_until ≡ true
      → answer r.auth.pam (cstr ctx.username) (cstr ctx.password) ≡ granted
      → let o =
          (authenticate r.auth
            (cstr ctx.username)
            (cstr ctx.password)
            ctx.config
            ctx.auth_state
            g).0 in
        (handle state_authenticate r result ctx g).0 ≡ (
          (
            success,
            record ctx {
              password = secure_memzero ctx.password;
              auth_state = auth_reset_attempts o.1;
              state = state_start_session;
            },
          ),
          o.2,
        )
  unfolding handle handle_authenticate
  logged_in free taken =
      let ok =
        (authenticate-success_iff r.auth (cstr ctx.username) (cstr ctx.password) ctx.config
            ctx.auth_state g).1
          (ap (λ r. r.0) (free_now r.auth.now ctx.auth_state free), taken) in
      rw (free_now r.clock ctx.auth_state free) (authenticated_success _ ok)

  session_ended_success :
      (o : Code × Option Account)
      → o.0 ≡ success
      → (session_ended r.screen ctx o).0 ≡ (success, record ctx { state = state_exit })
  unfolding session_ended
  session_ended_success (code, a) ok = rw ok refl

  pub session_done :
      (i : ℕ)
      → ctx.selected_session ≡ pos i
      → i < ctx.sessions.count
      → (session_start r.start (session_at ctx.sessions (pos i)) (some (cstr ctx.username))).0.0
        ≡ success
      → (handle state_start_session r result ctx g).0
        ≡ ((success, record ctx { state = state_exit }), g)
  unfolding handle handle_start_session
  session_done i e within ran =
      let inside : out_of_range ctx.selected_session ctx.sessions.count ≡ false =
        ap (λ s. out_of_range s ctx.sessions.count) e ∙ ground arith in
      rw inside (
        ap (λ h. (h, g))
          (session_ended_success
            (session_start r.start (session_at ctx.sessions ctx.selected_session)
              (some (cstr ctx.username))).0
            (ap
                (λ s.
                  (session_start r.start (session_at ctx.sessions s)
                    (some (cstr ctx.username))).0.0)
                e
              ∙ ran)))
