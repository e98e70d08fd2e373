-- ===== src/Auth.antt =====
-- src/auth.c: the lock on the terminal, the lockout after failed attempts, and the PAM session.
pub mod Attempt
pub mod Lockout
pub mod Evasion
pub mod Disabled
pub mod Resources
pub mod Conversation
use kia.Base.{
  ℕ, zero, suc, ◌+◌, Bool, true, false, ◌&&◌, List, [], ◌∷◌, Option, none, some, ◌==◌,
  if◌then◌else◌, ℤ, pos, negsuc, ◌+ℤ◌, leb_ℤ,
}
use kia.Code.{Code, success, error_auth, error_system, error_pam}
use kia.Text.{Bytes, cstr, equal, copy_string}
use kia.Effect.{
  Effect, Eff, pure, call, ◌>>=◌, ◌>>◌, debug, info, warn, error, log, tty_opened, vt_locked,
  vt_unlocked, descriptor_closed, PamStatus, pam_success, pam_failure, pam_started,
  pam_authenticated, pam_account_checked, pam_ended,
}
use kia.Config.{Config, name_size}

-- `auth_state_t`
pub record AuthState : Type 0 where
  pub username : Bytes
  pub failed_attempts : ℕ
  pub lockout_until : ℤ

-- The two static variables. `none` is NULL, and a negative descriptor.
pub record AuthGlobals : Type 0 where
  pub pam_handle : Option ℕ
  pub tty_fd : Option ℕ

-- Nothing is held, as at the start.
abbrev pub idle : AuthGlobals
idle = record { pam_handle = none; tty_fd = none }

-- What `open`, `ioctl(VT_LOCKSWITCH)` and `ioctl(VT_UNLOCKSWITCH)` answer.
pub record Terminal : Type 0 where
  pub opens : Option ℕ
  pub locks : Bool
  pub unlocks : Bool

-- `pam_start` gives a handle, or an error code; what it leaves in the handle is then undefined.
pub data PamStart : Type 0 where
  started : ℕ → PamStart
  refused : ℕ → Option ℕ → PamStart

-- What PAM answers: `pam_start` for a user, `pam_authenticate`
-- for the user and the password that the conversation gives, and `pam_acct_mgmt` for the user.
pub record Pam : Type 0 where
  pub starts : Bytes → PamStart
  pub authenticates : Bytes → Bytes → PamStatus
  pub accounts : Bytes → PamStatus

-- The answers of one call of `auth_authenticate`: the clock is read before and after PAM.
pub record AuthEnv : Type 0 where
  pub terminal : Terminal
  pub pam : Pam
  pub now : ℤ
  pub later : ℤ

abbrev pub is_zero_ℤ : ℤ → Bool
is_zero_ℤ (pos n) = n == 0
is_zero_ℤ (negsuc n) = false

tty_lock_opened : Terminal → Option ℕ → AuthGlobals → Eff (Code × AuthGlobals)
tty_lock_opened t none g = do
  call (log warn "Failed to open TTY for locking: %s")
  pure (error_system, record g { tty_fd = none })
tty_lock_opened t (some fd) g =
    if t.locks
    then (do
      call (tty_opened fd)
      call (vt_locked fd)
      call (log debug "TTY locked during authentication")
      pure (success, record g { tty_fd = some fd }))
    else do
      call (tty_opened fd)
      call (log warn "Failed to lock VT switching: %s")
      call (descriptor_closed fd)
      pure (error_system, record g { tty_fd = none })

unfoldable pub tty_lock : Terminal → AuthGlobals → Eff (Code × AuthGlobals)
unfolding tty_lock_opened
tty_lock t g = tty_lock_opened t t.opens g

tty_unlock_fd : Terminal → Option ℕ → AuthGlobals → Eff AuthGlobals
tty_unlock_fd t none g = pure g
tty_unlock_fd t (some fd) g = do
  (if t.unlocks then call (vt_unlocked fd) else call (log warn "Failed to unlock VT switching: %s"))
  call (descriptor_closed fd)
  call (log debug "TTY unlocked after authentication")
  pure (record g { tty_fd = none })

unfoldable pub tty_unlock : Terminal → AuthGlobals → Eff AuthGlobals
unfolding tty_unlock_fd
tty_unlock t g = tty_unlock_fd t g.tty_fd g

unfoldable pub auth_init : Eff Code
auth_init = do call (log info "Authentication module initialized"); pure success

-- The clock is read only if a lockout is set.
unfoldable pub auth_is_locked_out : ℤ → AuthState → Bool × AuthState
auth_is_locked_out now s =
    if is_zero_ℤ s.lockout_until
    then (false, s)
    else if leb_ℤ s.lockout_until now
    then (false, record s { lockout_until = pos 0; failed_attempts = 0 })
    else (true, s)

unfoldable pub auth_reset_attempts : AuthState → AuthState
auth_reset_attempts s = record s { failed_attempts = 0; lockout_until = pos 0 }

-- `if (strcmp(state->username, username) != 0) { … }`
unfoldable pub change_user : Bytes → AuthState → AuthState
change_user username s = if equal (cstr s.username) username then s else record {
  username = copy_string name_size s.username username;
  failed_attempts = 0;
  lockout_until = pos 0;
}

-- `if (state->failed_attempts >= config->max_attempts) { … }`
pub lock_out : ℤ → Config → AuthState → Eff AuthState
lock_out now c s =
    if leb_ℤ c.max_attempts (pos s.failed_attempts)
    then (do
      call (log warn "User '%s' locked out after %d failed attempts")
      pure (record s { lockout_until = now +ℤ c.lockout_duration }))
    else pure s

abbrev pub count_failure : AuthState → AuthState
count_failure s = record s { failed_attempts = s.failed_attempts + 1 }

-- `pam_end(pam_handle, status); pam_handle = NULL;`
abbrev end_pam : ℕ → PamStatus → AuthGlobals → Eff AuthGlobals
end_pam h status g = do call (pam_ended h status); pure (record g { pam_handle = none })

abbrev pub Outcome : Type 0
Outcome = Code × AuthState × AuthGlobals

-- `pam_authenticate` has succeeded, and `pam_acct_mgmt` answers `account`.
after_account : AuthEnv → ℕ → Config → AuthState → AuthGlobals → PamStatus → Eff Outcome
unfolding tty_unlock lock_out auth_reset_attempts
after_account env h c s g (pam_failure code) = do
  call (log error "PAM account verification failed for user '%s': %s")
  g' ← end_pam h (pam_failure code) g
  s' ← lock_out env.later c (count_failure s)
  g'' ← tty_unlock env.terminal g'
  pure (error_auth, s', g'')
after_account env h c s g pam_success = do
  call (log info "User '%s' authenticated successfully")
  g' ← end_pam h pam_success g
  g'' ← tty_unlock env.terminal g'
  pure (success, auth_reset_attempts s, g'')

-- `pam_authenticate` answers `status`.
after_authenticate :
    AuthEnv → Bytes → ℕ → Config → AuthState → AuthGlobals → PamStatus → Eff Outcome
unfolding tty_unlock lock_out after_account
after_authenticate env username h c s g pam_success = do
  call (pam_account_checked h)
  after_account env h c s g (env.pam.accounts username)
after_authenticate env username h c s g (pam_failure code) = do
  call (log error "Authentication failed for user '%s' (attempt %d/%d): %s")
  s' ← lock_out env.later c (count_failure s)
  g' ← end_pam h (pam_failure code) g
  g'' ← tty_unlock env.terminal g'
  pure (error_auth, s', g'')

-- `pam_start` has answered.
after_start : AuthEnv → Bytes → Bytes → Config → AuthState → AuthGlobals → PamStart → Eff Outcome
unfolding tty_unlock after_authenticate
after_start env username password c s g (refused code left) = do
  call (pam_started username false)
  call (log error "PAM initialization failed: %s")
  g' ← tty_unlock env.terminal (record g { pam_handle = left })
  pure (error_pam, s, g')
after_start env username password c s g (started h) = do
  call (pam_started username true)
  call (pam_authenticated h)
  after_authenticate env username h c s (record g { pam_handle = some h })
      (env.pam.authenticates username password)

-- The part behind the check of the arguments.
unfoldable pub authenticate :
    AuthEnv → Bytes → Bytes → Config → AuthState → AuthGlobals → Eff Outcome
unfolding auth_is_locked_out change_user tty_lock after_start
authenticate env username password c s g =
    let (locked, s') = auth_is_locked_out env.now s in
    if locked
    then (do
      call (log warn "User '%s' is locked out for %d more seconds")
      pure (error_auth, s', g))
    else do
      let s'' = change_user username s'
      (_, g') ← tty_lock env.terminal g
      after_start env username password c s'' g' (env.pam.starts username)

-- A null pointer is `none`.
unfoldable pub auth_authenticate :
    AuthEnv
    → Option Bytes
    → Option Bytes
    → Option Config
    → Option AuthState
    → AuthGlobals
    → Eff (Code × Option AuthState × AuthGlobals)
unfolding authenticate
auth_authenticate env (some username) (some password) (some c) (some s) g = do
  (code, s', g') ← authenticate env username password c s g
  pure (code, some s', g')
auth_authenticate env _ _ _ s g = do
  call (log error "Invalid parameters to auth_authenticate")
  pure (error_auth, s, g)

end_open_pam : Option ℕ → AuthGlobals → Eff AuthGlobals
end_open_pam none g = pure g
end_open_pam (some h) g = end_pam h pam_success g

unfoldable pub auth_cleanup : Terminal → AuthGlobals → Eff AuthGlobals
unfolding tty_unlock end_open_pam
auth_cleanup t g = do
  g' ← end_open_pam g.pam_handle g
  g'' ← tty_unlock t g'
  call (log info "Authentication module cleaned up")
  pure g''
