-- ===== src/Controller/Handlers/Authenticate.antt =====
-- `handle_authenticate` of src/controller.c, with the message that it shows.
use kia.Base.{some, if◌then◌else◌, ℤ, pos, negsuc, ℕ, ◌+◌, ◌++◌, ◌∷◌, take}
use kia.Code.{success, succeeded}
use kia.Text.{decimal, Bytes, codes, cstr}
use kia.Effect.{Eff, pure, call, ◌>>=◌, ◌>>◌, info, warn, error, log}
use kia.Auth.{AuthGlobals, Outcome, auth_is_locked_out, authenticate, auth_reset_attempts}
use kia.Tui.{Screen}
use kia.Tui.Drawing.{tui_show_error}
use kia.Controller.{state_show_login, state_start_session, AppContext, Round, secure_memzero}
use kia.Controller.Handlers.{Handled}

abbrev pub HandledAuth : Type 0
HandledAuth = Handled × AuthGlobals

decimal_ℤ : ℤ → Bytes
decimal_ℤ (pos n) = decimal n
decimal_ℤ (negsuc n) = b'-' ∷ decimal (n + 1)

-- "Authentication failed. Attempt %d of %d.", cut to its array of 256 bytes.
unfoldable pub attempt_message : ℕ → ℤ → Bytes
unfolding decimal_ℤ
attempt_message attempts most = take 255 (
    codes "Authentication failed. Attempt "
    ++ decimal attempts
    ++ codes " of "
    ++ decimal_ℤ most
    ++ codes ".")

unfoldable pub authenticated : Screen → AppContext → Outcome → Eff HandledAuth
authenticated screen ctx (code, s, g) =
    let cleared = record ctx { password = secure_memzero ctx.password } in
    if succeeded code
    then (do
      call (log info "User '%s' authenticated successfully")
      pure (
        (
          success,
          record cleared { auth_state = auth_reset_attempts s; state = state_start_session },
        ),
        g,
      ))
    else (do
      call (log error "Authentication failed for user '%s' (attempt %d/%d)")
      tui_show_error screen (some (attempt_message s.failed_attempts ctx.config.max_attempts))
      pure ((success, record cleared { auth_state = s; state = state_show_login }), g))

-- The arguments of `auth_authenticate` are addresses in the context, so that none of them is null.
unfoldable pub handle_authenticate : Round → AppContext → AuthGlobals → Eff HandledAuth
handle_authenticate r ctx g =
    let (locked, s) = auth_is_locked_out r.clock ctx.auth_state in
    if locked
    then (do
      call (log warn "User '%s' is locked out")
      tui_show_error r.screen
          (some (codes "Too many failed attempts. Please wait before trying again."))
      pure (
        (
          success,
          record ctx {
            auth_state = s;
            password = secure_memzero ctx.password;
            state = state_show_login;
          },
        ),
        g,
      ))
    else (do
      outcome ← authenticate r.auth (cstr ctx.username) (cstr ctx.password) ctx.config s g
      authenticated r.screen ctx outcome)
