-- ===== src/Auth/Evasion.antt =====
-- How a change of the user name evades the lockout of src/auth.c.
use kia.Base.{
  ℕ, ◌+◌, ◌<◌, ◌≡◌, ◌≢◌, refl, ap, sym, ◌∙◌, true, false, List, [], ◌∷◌, ℤ, pos, leb_ℤ, arith,
  length, Bool-cases, inl, inr,
}
use kia.Text.{Bytes, IsText, cstr, equal, copy_string}
use kia.Text.Buffers.{equal_iff, cstr-copy_string_fits, length-copy_string}
use kia.Config.{Config, name_size}
use kia.Auth.Attempt.{denied, answer, punish, settle, attempt, authenticate-attempt}
use kia.Auth.{
  AuthState, AuthGlobals, AuthEnv, auth_is_locked_out, change_user, authenticate, is_zero_ℤ,
}

-- Attempts with their user names, one behind the other.
abbrev pub authenticate_each :
    List (AuthEnv × Bytes × Bytes) → Config → AuthState → AuthGlobals → AuthState × AuthGlobals
authenticate_each [] c s g = (s, g)
authenticate_each ((env, u, p) ∷ es) c s g =
    let o = authenticate env u p c s g in authenticate_each es c o.0.1 o.0.2

-- Each is denied, and its name is another than that of the attempt before it.
abbrev pub Alternates : Bytes → List (AuthEnv × Bytes × Bytes) → Type 0
Alternates before [] = Unit {0}
Alternates before ((env, u, p) ∷ es) =
    (u ≢ before)
    × (IsText u × (length u < name_size))
    × (answer env.pam u p ≡ denied)
    × Alternates u es

-- The state behind an attempt of another user than before: one failure, and no lockout.
pub record IsFirst (u : Bytes) (s : AuthState) : Type 0 where
  pub named : cstr s.username ≡ u
  pub sized : length s.username ≡ name_size
  pub no_lockout : is_zero_ℤ s.lockout_until ≡ true

change_user_other :
    (u before : Bytes) (s : AuthState)
    → IsFirst before s
    → u ≢ before
    → change_user u s ≡ record {
      username = copy_string name_size s.username u;
      failed_attempts = 0;
      lockout_until = pos 0;
    }
unfolding change_user
change_user_other u before s f n = elim (Bool-cases (equal (cstr s.username) u)) [
  | inl same ↦ absurd (n (sym ((equal_iff (cstr s.username) u).0 same) ∙ f.named))
  | inr other ↦ rw other refl
]

punish_first :
    (now : ℤ) (c : Config) (m : ℕ) (name : Bytes) (until : ℤ)
    → c.max_attempts ≡ pos m
    → 1 < m
    → let s : AuthState = record { username = name; failed_attempts = 0; lockout_until = until } in
      punish now c s ≡ record { username = name; failed_attempts = 0 + 1; lockout_until = until }
unfolding punish
punish_first now c m name until e h =
    let free : leb_ℤ c.max_attempts (pos (0 + 1)) ≡ false = rw e (ground arith) in rw free refl

other_user-IsFirst :
    (env : AuthEnv) (u p before : Bytes) (c : Config) (s : AuthState) (g : AuthGlobals) (m : ℕ)
    → c.max_attempts ≡ pos m
    → 1 < m
    → IsFirst before s
    → u ≢ before
    → IsText u
    → length u < name_size
    → answer env.pam u p ≡ denied
    → IsFirst u (authenticate env u p c s g).0.1
other_user-IsFirst env u p before c s g m e h f n t l d =
    rw (ap (λ r. r.1) (authenticate-attempt env u p c s g)) by_attempt
  where
    by_attempt : IsFirst u (attempt (answer env.pam u p) env.now env.later u c s).1
    by_attempt =
        unfold attempt settle auth_is_locked_out in
        rw (d, f.no_lockout, change_user_other u before s f n, punish_first env.later c m _ _ e h)
          (record {
            named = cstr-copy_string_fits name_size s.username u l f.sized t;
            sized = length-copy_string name_size s.username u f.sized;
            no_lockout = refl;
          })

-- Denied attempts whose user name is each time another than that of the attempt before never set a
-- lockout, however many they are, if `max_attempts` is above 1. The names fit their array, and no
-- lockout is set at first.
pub alternating_never_locks :
    (es : List (AuthEnv × Bytes × Bytes)) (before : Bytes) (c : Config) (s : AuthState)
    (g : AuthGlobals) (m : ℕ)
    → c.max_attempts ≡ pos m
    → 1 < m
    → IsFirst before s
    → Alternates before es
    → is_zero_ℤ (authenticate_each es c s g).0.lockout_until ≡ true
alternating_never_locks [] before c s g m e h f a = f.no_lockout
alternating_never_locks ((env, u, p) ∷ es) before c s g m e h f a =
    alternating_never_locks es u c (authenticate env u p c s g).0.1 (authenticate env u p c s g).0.2
      m e h (other_user-IsFirst env u p before c s g m e h f a.0 a.1.0 a.1.1 a.2) a.3
