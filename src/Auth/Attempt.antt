-- ===== src/Auth/Attempt.antt =====
-- `auth_authenticate` of src/auth.c with the system taken out: what one attempt decides, and how
-- it is counted.
use kia.Base.{
  ℕ, ◌+◌, ◌≡◌, refl, some, if◌then◌else◌, ℤ, pos, ◌+ℤ◌, leb_ℤ, arith, Bool-cases, inl, inr,
}
use kia.Code.{Code, success, error_auth, error_pam}
use kia.Text.{Bytes}
use kia.Effect.{Eff, PamStatus, pam_success, pam_failure}
use kia.Config.{Config}
use kia.Auth.{
  AuthState, AuthGlobals, AuthEnv, Pam, PamStart, started, refused, auth_is_locked_out,
  auth_reset_attempts, change_user, lock_out, after_account, after_authenticate, after_start,
  authenticate, Outcome, tty_lock,
}

-- What PAM says of a user and a password.
pub data Answer : Type 0 where
  no_session denied granted : Answer

abbrev account_answer : PamStatus → Answer
account_answer pam_success = granted
account_answer (pam_failure _) = denied

abbrev password_answer : PamStatus → PamStatus → Answer
password_answer pam_success account = account_answer account
password_answer (pam_failure _) account = denied

abbrev start_answer : PamStart → PamStatus → PamStatus → Answer
start_answer (started _) password account = password_answer password account
start_answer (refused _ _) password account = no_session

unfoldable pub answer : Pam → Bytes → Bytes → Answer
answer pam username password =
    start_answer (pam.starts username) (pam.authenticates username password) (pam.accounts username)

-- One more failure, and the lockout when the limit is reached.
unfoldable pub punish : ℤ → Config → AuthState → AuthState
punish now c s =
    if leb_ℤ c.max_attempts (pos (s.failed_attempts + 1))
    then record s {
      failed_attempts = s.failed_attempts + 1;
      lockout_until = now +ℤ c.lockout_duration;
    }
    else record s { failed_attempts = s.failed_attempts + 1 }

unfoldable pub settle : Answer → ℤ → Config → AuthState → Code × AuthState
unfolding punish auth_reset_attempts
settle no_session now c s = (error_pam, s)
settle denied now c s = (error_auth, punish now c s)
settle granted now c s = (success, auth_reset_attempts s)

-- The specification of an attempt.
unfoldable pub attempt : Answer → ℤ → ℤ → Bytes → Config → AuthState → Code × AuthState
unfolding settle
attempt a now later username c s =
    let (locked, s') = auth_is_locked_out now s in
    if locked then (error_auth, s') else settle a later c (change_user username s')

-- The code and the state of an outcome.
abbrev pub decision : Eff Outcome → Code × AuthState
decision o = (o.0.0, o.0.1)

decision-after_account :
    (env : AuthEnv) (h : ℕ) (c : Config) (s : AuthState) (g : AuthGlobals) (a : PamStatus)
    → decision (after_account env h c s g a) ≡ settle (account_answer a) env.later c s
unfolding after_account settle lock_out
decision-after_account env h c s g pam_success = refl
decision-after_account env h c s g (pam_failure code) = ground arith

decision-after_authenticate :
    (env : AuthEnv) (u : Bytes) (h : ℕ) (c : Config) (s : AuthState) (g : AuthGlobals)
    (a : PamStatus)
    → decision (after_authenticate env u h c s g a)
      ≡ settle (password_answer a (env.pam.accounts u)) env.later c s
unfolding after_authenticate
decision-after_authenticate env u h c s g pam_success =
    decision-after_account env h c s g (env.pam.accounts u)
decision-after_authenticate env u h c s g (pam_failure code) =
    unfold settle lock_out in ground arith

decision-after_start :
    (env : AuthEnv) (u p : Bytes) (c : Config) (s : AuthState) (g : AuthGlobals) (a : PamStart)
    → decision (after_start env u p c s g a)
      ≡ settle (start_answer a (env.pam.authenticates u p) (env.pam.accounts u)) env.later c s
unfolding after_start
decision-after_start env u p c s g (started h) =
    decision-after_authenticate env u h c s (record g { pam_handle = some h })
      (env.pam.authenticates u p)
decision-after_start env u p c s g (refused code left) = unfold settle in refl

-- The code that `auth_authenticate` returns and the state that it leaves are those of the
-- specification, which sees of PAM only its answer.
pub authenticate-attempt :
    (env : AuthEnv) (u p : Bytes) (c : Config) (s : AuthState) (g : AuthGlobals)
    → decision (authenticate env u p c s g) ≡ attempt (answer env.pam u p) env.now env.later u c s
unfolding authenticate attempt answer
authenticate-attempt env u p c s g = elim (Bool-cases (auth_is_locked_out env.now s).0) [
  | inl locked ↦ rw locked refl
  | inr free ↦
      rw free (decision-after_start env u p c _ (tty_lock env.terminal g).0.1 (env.pam.starts u))
]
