-- ===== src/Auth/Resources.antt =====
-- What src/auth.c holds of the system between calls: the terminal, its lock, and the PAM handle.
use kia.Base.{ℕ, suc, ◌+◌, ◌<◌, ◌≡◌, ◌⊎◌, true, false, List, [], ◌∷◌, Option, none, arith}
use kia.Text.{Bytes}
use kia.Effect.{
  Effect, tty_opened, vt_locked, vt_unlocked, descriptor_closed, pam_started, pam_ended,
}
use kia.Config.{Config}
use kia.Auth.{
  AuthState, AuthGlobals, AuthEnv, Terminal, after_account, after_authenticate, after_start,
  authenticate, tty_lock, tty_unlock, lock_out,
}

-- What a trace takes and what it gives back: terminals, locks, and transactions of PAM. A
-- `pam_start` that fails begins none.
pub record Use : Type 0 where
  pub opened : ℕ
  pub closed : ℕ
  pub locked : ℕ
  pub unlocked : ℕ
  pub begun : ℕ
  pub ended : ℕ
  pub refused_starts : ℕ

abbrev pub count_use : Effect → Use → Use
count_use (tty_opened _) u = record u { opened = suc u.opened }
count_use (descriptor_closed _) u = record u { closed = suc u.closed }
count_use (vt_locked _) u = record u { locked = suc u.locked }
count_use (vt_unlocked _) u = record u { unlocked = suc u.unlocked }
count_use (pam_started _ true) u = record u { begun = suc u.begun }
count_use (pam_started _ false) u = record u { refused_starts = suc u.refused_starts }
count_use (pam_ended _ _) u = record u { ended = suc u.ended }
count_use _ u = u

abbrev pub use_of : List Effect → Use
use_of [] = record {
  opened = 0;
  closed = 0;
  locked = 0;
  unlocked = 0;
  begun = 0;
  ended = 0;
  refused_starts = 0;
}
use_of (e ∷ es) = count_use e (use_of es)

-- A handle is left only if some `pam_start` has failed; n of them have.
abbrev pub Left : ℕ → Option ℕ → Type 0
Left n h = (h ≡ none) ⊎ (0 < n)

-- All that was taken has been given back, the lock on the terminal as far as the system undoes it.
-- Before the trace, n calls of `pam_start` had failed.
pub record IsReleased (t : Terminal) (n : ℕ) (g : AuthGlobals) (es : List Effect) : Type 0 where
  pub no_terminal : g.tty_fd ≡ none
  pub handle : Left (n + (use_of es).refused_starts) g.pam_handle
  pub terminals : (use_of es).opened ≡ (use_of es).closed
  pub sessions : (use_of es).begun ≡ (use_of es).ended
  pub locks : t.unlocks ≡ true → (use_of es).locked ≡ (use_of es).unlocked

-- With no terminal open.
abbrev pub with_handle : Option ℕ → AuthGlobals
with_handle h = record { pam_handle = h; tty_fd = none }

-- `auth_authenticate` gives back the terminal and the transaction of PAM on every path, if it
-- holds no terminal at first, and a handle at most behind a `pam_start` that has failed.
pub authenticate-IsReleased :
    (env : AuthEnv) (u p : Bytes) (c : Config) (s : AuthState) (h : Option ℕ) (n : ℕ)
    → Left n h
    → let run = authenticate env u p c s (with_handle h) in IsReleased env.terminal n run.0.2 run.1
unfolding authenticate after_start after_authenticate after_account tty_lock tty_unlock lock_out
authenticate-IsReleased env u p c s h n before = ground arith
