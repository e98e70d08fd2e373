-- ===== src/Auth/Lockout/Counts.antt =====
-- How the failures that src/auth.c counts and the lockout that it sets go together.
use kia.Base.{
  ℕ, ◌<◌, ◌≡◌, ◌⊎◌, refl, ap, true, false, ℤ, pos, ◌+ℤ◌, ◌<ℤ◌, ◌≤ℤ◌, arith, Bool-cases, inl, inr,
  +ℤ_parts,
}
use kia.Text.{Bytes}
use kia.Config.{Config}
use kia.Auth.Attempt.{
  Answer, no_session, denied, granted, answer, punish, settle, attempt, authenticate-attempt,
}
use kia.Auth.{
  AuthState, AuthGlobals, AuthEnv, auth_is_locked_out, auth_reset_attempts, change_user,
  authenticate, is_zero_ℤ,
}

-- Either no lockout is set and the count is below the limit, or one is set at the limit.
abbrev pub IsCounted : ℕ → AuthState → Type 0
IsCounted m s =
    ((is_zero_ℤ s.lockout_until ≡ true) × (s.failed_attempts < m))
    ⊎ ((is_zero_ℤ s.lockout_until ≡ false) × (s.failed_attempts ≡ m))

module _ (c : Config) (m : ℕ) (limit : c.max_attempts ≡ pos m) (some_limit : 0 < m) where
  module _ (now later : ℤ) (clock : pos 0 <ℤ later) (wait : pos 0 ≤ℤ c.lockout_duration) where
    end_is_set : is_zero_ℤ (later +ℤ c.lockout_duration) ≡ false
    end_is_set = ground (arith, +ℤ_parts later c.lockout_duration)

    punish-IsCounted :
        (s : AuthState)
        → is_zero_ℤ s.lockout_until ≡ true
        → s.failed_attempts < m
        → IsCounted m (punish later c s)
    unfolding punish
    punish-IsCounted s z h = rw limit (ground (arith, end_is_set))

    free_counts :
        (s : AuthState)
        → IsCounted m s
        → (auth_is_locked_out now s).0 ≡ false
        → (is_zero_ℤ (auth_is_locked_out now s).1.lockout_until ≡ true)
          × ((auth_is_locked_out now s).1.failed_attempts < m)
    unfolding auth_is_locked_out
    free_counts s k f = ground (arith, some_limit)

    locked_same :
        (s : AuthState) → (auth_is_locked_out now s).0 ≡ true → (auth_is_locked_out now s).1 ≡ s
    unfolding auth_is_locked_out
    locked_same s f = ground arith

    change_user_counts :
        (u : Bytes) (s : AuthState)
        → is_zero_ℤ s.lockout_until ≡ true
        → s.failed_attempts < m
        → (is_zero_ℤ (change_user u s).lockout_until ≡ true)
          × ((change_user u s).failed_attempts < m)
    unfolding change_user
    change_user_counts u s z h = ground (arith, some_limit)

    settle-IsCounted :
        (a : Answer) (s : AuthState)
        → is_zero_ℤ s.lockout_until ≡ true
        → s.failed_attempts < m
        → IsCounted m (settle a later c s).1
    unfolding settle auth_reset_attempts
    settle-IsCounted no_session s z h = inl (z, h)
    settle-IsCounted denied s z h = punish-IsCounted s z h
    settle-IsCounted granted s z h = inl (refl, some_limit)

    attempt-IsCounted :
        (a : Answer) (u : Bytes) (s : AuthState)
        → IsCounted m s
        → IsCounted m (attempt a now later u c s).1
    unfolding attempt
    attempt-IsCounted a u s k = elim (Bool-cases (auth_is_locked_out now s).0) [
      | inl locked ↦ rw locked (rw (locked_same s locked) k)
      | inr free ↦
          let (z, h) = free_counts s k free in
          let (z', h') = change_user_counts u (auth_is_locked_out now s).1 z h in
          rw free (settle-IsCounted a (change_user u (auth_is_locked_out now s).1) z' h')
    ]

  -- For a positive `max_attempts`, a `lockout_duration` that is not negative and a clock behind 0,
  -- every call keeps the count within the limit: at most `max_attempts` failures are counted, and
  -- they are all counted exactly while a lockout is set.
  pub authenticate-IsCounted :
      (env : AuthEnv) (u p : Bytes) (s : AuthState) (g : AuthGlobals)
      → pos 0 <ℤ env.later
      → pos 0 ≤ℤ c.lockout_duration
      → IsCounted m s
      → IsCounted m (authenticate env u p c s g).0.1
  authenticate-IsCounted env u p s g clock wait k =
      rw (ap (λ d. d.1) (authenticate-attempt env u p c s g))
        (attempt-IsCounted env.now env.later clock wait (answer env.pam u p) u s k)
