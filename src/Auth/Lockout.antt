-- ===== src/Auth/Lockout.antt =====
-- The lockout of src/auth.c: who gets in, and what a lockout refuses.
pub mod Counts
use kia.Base.{
  ℕ, suc, ◌+◌, ◌<◌, ◌≡◌, ◌↔◌, ◌⊎◌, refl, ap, ◌∙◌, true, false, List, [], ◌∷◌, ℤ, pos, ◌+ℤ◌, leb_ℤ,
  ◌<ℤ◌, ◌≤ℤ◌, arith, length, All, Bool-cases, inl, inr, +ℤ_parts,
}
use kia.Code.{success, error_auth}
use kia.Text.{Bytes, cstr}
use kia.Text.Buffers.{equal_iff}
use kia.Effect.{warn, log}
use kia.Config.{Config}
use kia.Auth.Attempt.{
  Answer, no_session, denied, granted, answer, punish, settle, attempt, authenticate-attempt,
}
use kia.Auth.{
  AuthState, AuthGlobals, AuthEnv, auth_is_locked_out, auth_reset_attempts, change_user,
  authenticate, is_zero_ℤ,
}

-- A login succeeds exactly when no lockout runs and PAM starts, takes the password and takes the
-- account.
pub authenticate-success_iff :
    (env : AuthEnv) (u p : Bytes) (c : Config) (s : AuthState) (g : AuthGlobals)
    → ((authenticate env u p c s g).0.0 ≡ success)
      ↔ (((auth_is_locked_out env.now s).0 ≡ false) × (answer env.pam u p ≡ granted))
authenticate-success_iff env u p c s g = rw code by_attempt
  where
    code :
        (authenticate env u p c s g).0.0 ≡ (attempt (answer env.pam u p) env.now env.later u c s).0
    code = ap (λ d. d.0) (authenticate-attempt env u p c s g)

    by_attempt :
        ((attempt (answer env.pam u p) env.now env.later u c s).0 ≡ success)
        ↔ (((auth_is_locked_out env.now s).0 ≡ false) × (answer env.pam u p ≡ granted))
    by_attempt = unfold attempt settle in ground arith

-- A call during a lockout is refused, whatever the user and the password: the state stays, and
-- nothing but the log sees the call.
pub authenticate_locked :
    (env : AuthEnv) (u p : Bytes) (c : Config) (s : AuthState) (g : AuthGlobals)
    → is_zero_ℤ s.lockout_until ≡ false
    → env.now <ℤ s.lockout_until
    → authenticate env u p c s g
      ≡ ((error_auth, s, g), log warn "User '%s' is locked out for %d more seconds" ∷ [])
unfolding authenticate auth_is_locked_out
authenticate_locked env u p c s g z h =
    let running : leb_ℤ s.lockout_until env.now ≡ false = ground arith in rw (z, running) refl

-- Attempts of one user, one behind the other.
abbrev pub authenticate_all :
    List (AuthEnv × Bytes) → Bytes → Config → AuthState → AuthGlobals → AuthState × AuthGlobals
authenticate_all [] u c s g = (s, g)
authenticate_all ((env, p) ∷ es) u c s g =
    let o = authenticate env u p c s g in authenticate_all es u c o.0.1 o.0.2

-- All are denied by PAM.
abbrev pub AllDenied : Bytes → List (AuthEnv × Bytes) → Type 0
AllDenied u = All (λ a. answer a.0.pam u a.1 ≡ denied)

-- When the last of them came back.
abbrev pub last_time : ℤ → List (AuthEnv × Bytes) → ℤ
last_time t [] = t
last_time t ((env, _) ∷ es) = last_time env.later es

-- A known user, below the limit.
pub record IsOpen (u : Bytes) (k : ℕ) (s : AuthState) : Type 0 where
  pub known : cstr s.username ≡ u
  pub no_lockout : is_zero_ℤ s.lockout_until ≡ true
  pub failures : s.failed_attempts ≡ k

known-change_user : (u : Bytes) (s : AuthState) → cstr s.username ≡ u → change_user u s ≡ s
unfolding change_user
known-change_user u s e = rw ((equal_iff (cstr s.username) u).1 e)

open_state :
    (env : AuthEnv) (u p : Bytes) (c : Config) (s : AuthState) (g : AuthGlobals) (k : ℕ)
    → IsOpen u k s
    → answer env.pam u p ≡ denied
    → (authenticate env u p c s g).0.1 ≡ punish env.later c s
open_state env u p c s g k o d = ap (λ r. r.1) (authenticate-attempt env u p c s g) ∙ by_attempt
  where
    by_attempt : (attempt (answer env.pam u p) env.now env.later u c s).1 ≡ punish env.later c s
    by_attempt =
        unfold attempt settle auth_is_locked_out in
        rw (d, o.no_lockout, known-change_user u s o.known) refl

-- A failure below the limit leaves the user free to try again.
punish-IsOpen :
    (u : Bytes) (k m : ℕ) (now : ℤ) (c : Config) (s : AuthState)
    → c.max_attempts ≡ pos m
    → suc k < m
    → IsOpen u k s
    → IsOpen u (suc k) (punish now c s)
unfolding punish
punish-IsOpen u k m now c s e h o = rw e (ground arith)

-- The failure that reaches the limit sets the lockout.
punish_last :
    (u : Bytes) (k : ℕ) (now : ℤ) (c : Config) (s : AuthState)
    → c.max_attempts ≡ pos (suc k)
    → IsOpen u k s
    → (punish now c s).lockout_until ≡ now +ℤ c.lockout_duration
unfolding punish
punish_last u k now c s e o = rw e (ground arith)

-- `max_attempts` denied attempts in a row by one user, counting those that the state already
-- holds, set the lockout to end `lockout_duration` after the last of them.
pub authenticate_all-locks :
    (e : AuthEnv × Bytes) (es : List (AuthEnv × Bytes)) (u : Bytes) (k : ℕ) (c : Config)
    (s : AuthState) (g : AuthGlobals)
    → c.max_attempts ≡ pos (k + length (e ∷ es))
    → IsOpen u k s
    → AllDenied u (e ∷ es)
    → (authenticate_all (e ∷ es) u c s g).0.lockout_until
      ≡ last_time e.0.later es +ℤ c.lockout_duration
authenticate_all-locks (env, p) [] u k c s g m o d =
    ap (λ r. r.lockout_until) (open_state env u p c s g k o d.0)
    ∙ punish_last u k env.later c s (m ∙ ap pos (omega arith)) o
authenticate_all-locks (env, p) (e ∷ es) u k c s g m o d =
    let s' = (authenticate env u p c s g).0.1 in
    let open' : IsOpen u (suc k) s' =
      rw (open_state env u p c s g k o d.0)
        (punish-IsOpen u k (k + length (e ∷ e ∷ es)) env.later c s m (omega arith) o) in
    authenticate_all-locks e es u (suc k) c s' (authenticate env u p c s g).0.2
      (m ∙ ap pos (omega arith)) open' d.1

-- From a state with k failures of the user and no lockout, `max_attempts` - k denied attempts of
-- that user in a row have the effect that every call, by whatever user, is refused until
-- `lockout_duration` has passed since the last of them: PAM is not asked and nothing changes. The
-- end of the lockout is a time behind 0.
pub lockout_enforced :
    (e : AuthEnv × Bytes) (es : List (AuthEnv × Bytes)) (u : Bytes) (k : ℕ) (c : Config)
    (s : AuthState) (g : AuthGlobals) (env : AuthEnv) (u' p' : Bytes)
    → c.max_attempts ≡ pos (k + length (e ∷ es))
    → IsOpen u k s
    → AllDenied u (e ∷ es)
    → pos 0 <ℤ last_time e.0.later es +ℤ c.lockout_duration
    → env.now <ℤ last_time e.0.later es +ℤ c.lockout_duration
    → let (s', g') = authenticate_all (e ∷ es) u c s g in
      authenticate env u' p' c s' g'
      ≡ ((error_auth, s', g'), log warn "User '%s' is locked out for %d more seconds" ∷ [])
lockout_enforced e es u k c s g env u' p' m o d after before =
    let until = authenticate_all-locks e es u k c s g m o d in
    authenticate_locked env u' p' c (authenticate_all (e ∷ es) u c s g).0
      (authenticate_all (e ∷ es) u c s g).1 (rw until (ground arith)) (rw until before)
