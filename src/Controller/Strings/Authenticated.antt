-- ===== src/Controller/Strings/Authenticated.antt =====
-- The arrays of the context of src/controller.c after a login.
use kia.Base.{◌≡◌, subst, sym, ap, arith, Bool-cases, inl, inr, ℤ, ◌⊎◌}
use kia.Text.{Bytes, cstr, copy_string, IsBuffer, IsText}
use kia.Text.Buffers.{copy_string-IsBuffer, cstr-IsText}
use kia.Config.{Config, name_size}
use kia.Auth.{
  AuthGlobals, AuthState, Outcome, auth_is_locked_out, authenticate, auth_reset_attempts,
  change_user,
}
use kia.Auth.Attempt.{
  Answer, no_session, denied, granted, answer, attempt, settle, punish, authenticate-attempt,
}
use kia.Controller.{AppContext, Round, secure_memzero}
use kia.Controller.Handlers.Authenticate.{handle_authenticate, authenticated}
use kia.Controller.Strings.{HoldsStrings, Holding, arrays, secure_memzero-IsBuffer}

module _ (r : Round) where
  -- After `auth_authenticate` the user that the state knows is the one before or the one given.
  attempt_known :
      (a : Answer) (now later : ℤ) (u : Bytes) (c : Config) (s : AuthState)
      → ((attempt a now later u c s).1.username ≡ s.username)
        ⊎ ((attempt a now later u c s).1.username ≡ copy_string name_size s.username u)
  unfolding attempt settle punish auth_reset_attempts auth_is_locked_out change_user
  attempt_known no_session now later u c s = ground arith
  attempt_known denied now later u c s = ground arith
  attempt_known granted now later u c s = ground arith

  authenticate-known :
      (u p : Bytes) (c : Config) (s : AuthState) (g : AuthGlobals)
      → IsText u
      → IsBuffer name_size s.username
      → IsBuffer name_size (authenticate r.auth u p c s g).0.1.username
  authenticate-known u p c s g text h =
      rw (ap (λ d. d.1) (authenticate-attempt r.auth u p c s g))
        (elim (attempt_known (answer r.auth.pam u p) r.auth.now r.auth.later u c s) [
          | inl same ↦ rw same h
          | inr new ↦
              rw new (copy_string-IsBuffer name_size s.username u (omega arith) h.sized text)
        ])

  authenticated-arrays :
      (ctx : AppContext) (o : Outcome)
      → arrays (authenticated r.screen ctx o).0.0.1
        ≡ (ctx.username, secure_memzero ctx.password, o.1.username)
  unfolding authenticated auth_reset_attempts
  authenticated-arrays ctx o = ground arith

  locked_out_known : (now : ℤ) (s : AuthState) → (auth_is_locked_out now s).1.username ≡ s.username
  unfolding auth_is_locked_out
  locked_out_known now s = ground arith

  pub handle_authenticate-Holding :
      (ctx : AppContext) (g : AuthGlobals)
      → Holding ctx
      → Holding (handle_authenticate r ctx g).0.0.1
  unfolding handle_authenticate
  handle_authenticate-Holding ctx g h =
      let s = (auth_is_locked_out r.clock ctx.auth_state).1 in
      let known : IsBuffer name_size s.username =
        subst (IsBuffer name_size) (sym (locked_out_known r.clock ctx.auth_state)) h.known_held in
      let erased = secure_memzero-IsBuffer ctx.password h.password_held in
      elim (Bool-cases (auth_is_locked_out r.clock ctx.auth_state).0) [
        | inl locked ↦
            rw locked
              (record { user_held = h.user_held; password_held = erased; known_held = known })
        | inr free ↦
            let o =
              (authenticate r.auth (cstr ctx.username) (cstr ctx.password) ctx.config s g).0 in
            rw free (
              subst (λ a. HoldsStrings a.0 a.1 a.2) (sym (authenticated-arrays ctx o))
                (record {
                  user_held = h.user_held;
                  password_held = erased;
                  known_held =
                      authenticate-known (cstr ctx.username) (cstr ctx.password) ctx.config s g
                        (cstr-IsText ctx.username) known;
                }))
      ]
