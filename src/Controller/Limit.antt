-- ===== src/Controller/Limit.antt =====
-- The count of failed logins through the rounds of src/controller.c.
use mathlib.Core.Bool.{true≢false}
use kia.Base.{
  ℕ, ◌<◌, ◌≡◌, refl, subst, sym, ◌∙◌, Bool, true, false, ◌⊎◌, List, All, arith, Bool-cases, inl,
  inr, ℤ, pos, negsuc, ◌≤ℤ◌, ◌<ℤ◌,
}
use kia.Code.{Code, succeeded}
use kia.Text.{cstr}
use kia.Config.{Config}
use kia.Config.Bounds.{IsValid}
use kia.Auth.{
  AuthGlobals, AuthState, Outcome, auth_init, auth_is_locked_out, auth_reset_attempts, is_zero_ℤ,
}
use kia.Auth.Lockout.Counts.{IsCounted, authenticate-IsCounted}
use kia.Tui.Drawing.{tui_init}
use kia.Controller.{
  AppState, state_init, state_load_config, state_check_autologin, state_show_login,
  state_get_credentials, state_select_session, state_authenticate, state_start_session, state_exit,
  AppContext, Round, initial_context,
}
use kia.Controller.Handlers.{
  handle_init, handle_load_config, handle_check_autologin, handle_show_login,
  handle_get_credentials, handle_select_session, handle_start_session, start_screen, discovered,
  autologin_checked, autologin_known, check_credentials, check_selection, session_ended,
}
use kia.Controller.Handlers.Authenticate.{handle_authenticate, authenticated}
use kia.Controller.Loop.{handle}
use kia.Controller.Stages.{Stage, Reachable, begin, round}
use kia.Controller.Safety.{Reachable-IsStaged}
use kia.Controller.Graph.{Edge, started, handle-Edge}

-- Nobody has failed.
abbrev IsBlank : AuthState → Type 0
IsBlank s = (is_zero_ℤ s.lockout_until ≡ true) × (s.failed_attempts ≡ 0)

-- The failures are counted within the limit of the configuration.
abbrev pub WithinLimit : AppContext → Type 0
WithinLimit ctx =
    IsBlank ctx.auth_state
    ⊎ ((m : ℕ) × (ctx.config.max_attempts ≡ pos m) × IsCounted m ctx.auth_state)

-- The configuration is not loaded yet.
abbrev begins : AppState → Bool
begins state_init = true
begins state_load_config = true
begins _ = false

Edge-begins : {s t : AppState} {code : Code} → Edge s code t → begins s ≡ false → begins t ≡ false
Edge-begins started h = h
Edge-begins e h = ground arith

abbrev Counting : AppContext → Type 0
Counting ctx = WithinLimit ctx × (begins ctx.state ≡ true → IsBlank ctx.auth_state)

abbrev kept : AppContext → Config × AuthState
kept ctx = (ctx.config, ctx.auth_state)

module _ (r : Round) where
  handle-kept :
      (state : AppState) (result : Code) (ctx : AppContext) (g : AuthGlobals)
      → begins state ≡ false
      → ((state ≡ state_authenticate) ⊎ (kept (handle state r result ctx g).0.0.1 ≡ kept ctx))
  unfolding handle handle_check_autologin handle_show_login handle_get_credentials
      handle_select_session handle_start_session check_credentials autologin_checked autologin_known
      check_selection session_ended
  handle-kept state_check_autologin result ctx g h = inr (ground arith)
  handle-kept state_show_login result ctx g h = inr refl
  handle-kept state_get_credentials result ctx g h = inr (ground arith)
  handle-kept state_select_session result ctx g h = inr (ground arith)
  handle-kept state_authenticate result ctx g h = inl refl
  handle-kept state_start_session result ctx g h = inr (ground arith)
  handle-kept state_exit result ctx g h = inr refl
  handle-kept state_init result ctx g h = absurd (ground arith)
  handle-kept state_load_config result ctx g h = absurd (ground arith)

  handle-begins :
      (state : AppState) (result : Code) (ctx : AppContext) (g : AuthGlobals)
      → begins state ≡ true
      → (handle state r result ctx g).0.0.1.auth_state ≡ ctx.auth_state
  unfolding handle handle_init auth_init start_screen tui_init handle_load_config discovered
  handle-begins state_init result ctx g h = ground arith
  handle-begins state_load_config result ctx g h = ground arith
  handle-begins _ result ctx g h = absurd (ground arith)

limit_of : (c : Config) → IsValid c → (m : ℕ) × (c.max_attempts ≡ pos m) × (0 < m)
limit_of c v = go c.max_attempts v.attempts_from
  where
    go : (i : ℤ) → pos 1 ≤ℤ i → (m : ℕ) × (i ≡ pos m) × (0 < m)
    go (pos m) h = (m, refl, ground arith)
    go (negsuc n) h = absurd (ground arith)

pos_injective : (m n : ℕ) → pos m ≡ pos n → m ≡ n
pos_injective m n e = ground arith

-- A lockout that has passed clears the count.
expired-IsCounted :
    (now : ℤ) (m : ℕ) (s : AuthState)
    → 0 < m
    → IsCounted m s
    → IsCounted m (auth_is_locked_out now s).1
unfolding auth_is_locked_out
expired-IsCounted now m s positive h = ground arith

module _ (r : Round) (clock : pos 0 <ℤ r.auth.later) where
  authenticated-WithinLimit :
      (ctx : AppContext) (o : Outcome) (m : ℕ)
      → ctx.config.max_attempts ≡ pos m
      → IsCounted m o.1
      → WithinLimit (authenticated r.screen ctx o).0.0.1
  unfolding authenticated auth_reset_attempts
  authenticated-WithinLimit ctx (code, s, g) m limit h = elim (Bool-cases (succeeded code)) [
    | inl ok ↦ rw ok (inl (refl, refl))
    | inr failed ↦ rw failed (inr (m, limit, h))
  ]

  handle_authenticate-WithinLimit :
      (ctx : AppContext) (g : AuthGlobals)
      → IsValid ctx.config
      → WithinLimit ctx
      → WithinLimit (handle_authenticate r ctx g).0.0.1
  unfolding handle_authenticate
  handle_authenticate-WithinLimit ctx g v h =
      let (m, limit, some_limit) = limit_of ctx.config v in
      let counted : IsCounted m ctx.auth_state = elim h [
        | inl blank ↦ inl (blank.0, omega (arith, blank.1, some_limit))
        | inr (n, same, k) ↦
            subst (λ n. IsCounted n ctx.auth_state) (pos_injective n m (sym same ∙ limit)) k
      ] in
      let s = (auth_is_locked_out r.clock ctx.auth_state).1 in
      let now = expired-IsCounted r.clock m ctx.auth_state some_limit counted in
      elim (Bool-cases (auth_is_locked_out r.clock ctx.auth_state).0) [
        | inl locked ↦ rw locked (inr (m, limit, now))
        | inr free ↦ rw free (
            authenticated-WithinLimit ctx _ m limit (
              authenticate-IsCounted ctx.config m limit some_limit r.auth (cstr ctx.username)
                (cstr ctx.password) s g clock v.lockout_from now))
      ]

  after_step : (ctx ctx' : AppContext) → kept ctx' ≡ kept ctx → WithinLimit ctx → WithinLimit ctx'
  after_step ctx ctx' same h =
      subst (λ k. IsBlank k.1 ⊎ ((m : ℕ) × (k.0.max_attempts ≡ pos m) × IsCounted m k.1)) (sym same)
        h

  handle-WithinLimit :
      (rs : List Round) (state : AppState) (result : Code) (ctx : AppContext) (g : AuthGlobals)
      → Stage state rs ctx
      → begins state ≡ false
      → WithinLimit ctx
      → WithinLimit (handle state r result ctx g).0.0.1
  unfolding handle Stage
  handle-WithinLimit rs state result ctx g stage later h =
      elim (handle-kept r state result ctx g later) [
        | inl here ↦
            subst (λ s. Stage s rs ctx → WithinLimit (handle s r result ctx g).0.0.1) (sym here)
              (λ stage. handle_authenticate-WithinLimit ctx g stage.0.valid h) stage
        | inr same ↦ after_step ctx (handle state r result ctx g).0.0.1 same h
      ]

Reachable-Counting :
    {rs : List Round} {ctx : AppContext} {g : AuthGlobals}
    → All (λ r. pos 0 <ℤ r.auth.later) rs
    → Reachable rs ctx g
    → Counting ctx
unfolding initial_context
Reachable-Counting clocks (begin c g h) = (inl (refl, refl), λ _. (refl, refl))
Reachable-Counting clocks (round {rs} {ctx} {g} h result r run slot) =
    let before = Reachable-Counting clocks.1 h in
    elim (Bool-cases (begins ctx.state)) [
      | inl early ↦
          let blank =
            subst IsBlank (sym (handle-begins r ctx.state result ctx g early)) (before.1 early) in
          (inl blank, λ _. blank)
      | inr late ↦ (
        handle-WithinLimit r clocks.0 rs ctx.state result ctx g (Reachable-IsStaged h) late
            before.0,
        λ early.
            absurd (
              true≢false (sym early ∙ Edge-begins (handle-Edge ctx.state r result ctx g run) late)),
      )
    ]

-- In every context that the loop of `controller_run` reaches, if each clock that an attempt reads
-- is behind 0: no failure is counted and no lockout is set, or fewer failures than `max_attempts`
-- of the configuration are counted and no lockout is set, or as many and a lockout is set.
pub Reachable-WithinLimit :
    {rs : List Round} {ctx : AppContext} {g : AuthGlobals}
    → All (λ r. pos 0 <ℤ r.auth.later) rs
    → Reachable rs ctx g
    → WithinLimit ctx
Reachable-WithinLimit clocks h = (Reachable-Counting clocks h).0
