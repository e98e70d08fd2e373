-- ===== src/Session/Start/Interrupted.antt =====
-- What a signal does to the parent in `session_start` of src/session.c.
use kia.Base.{ℕ, ◌≡◌, refl, Bool, true, false, List, [], ◌∷◌, Option, none, some, arith}
use kia.Code.{error_session}
use kia.Text.{Bytes, codes}
use kia.Effect.{Effect, waited}
use kia.Session.{SessionInfo}
use kia.Session.Start.{
  Account, StartEnv, UserEntry, found, unknown_user, unreadable, wait_child, wait_for, fork_for,
  string_or, start_for, session_start,
}

-- Whether no child has been waited for to its end.
abbrev pub unwaited : List Effect → Bool
unwaited [] = true
unwaited (waited _ ∷ _) = false
unwaited (_ ∷ es) = unwaited es

module _ (env : StartEnv) (signum : ℕ) (comes : env.interrupts ≡ some signum) where
  fork_for_interrupted :
      (a : Account) (pid : Option ℕ)
      → ((fork_for env a pid).0.0 ≡ error_session) × (unwaited (fork_for env a pid).1 ≡ true)
  unfolding fork_for wait_for wait_child
  fork_for_interrupted a none = (refl, refl)
  fork_for_interrupted a (some pid) = rw comes (refl, refl)

  start_for_interrupted :
      (s : SessionInfo) (username : Bytes) (e : UserEntry)
      → ((start_for env s username e).0.0 ≡ error_session)
        × (unwaited (start_for env s username e).1 ≡ true)
  unfolding start_for
  start_for_interrupted s username unknown_user = (refl, refl)
  start_for_interrupted s username unreadable = (refl, refl)
  start_for_interrupted s username (found pw) =
      let forked =
        fork_for_interrupted
          (record {
            username = username;
            home = string_or pw.pw_dir [];
            shell = string_or pw.pw_shell (codes "/bin/sh");
            uid = pw.pw_uid;
            gid = pw.pw_gid;
          })
          env.forks in
      ground (arith, forked)

  -- It fails, and the child that it has started is not waited for.
  pub session_start_interrupted :
      (s : Option SessionInfo) (username : Option Bytes)
      → ((session_start env s username).0.0 ≡ error_session)
        × (unwaited (session_start env s username).1 ≡ true)
  unfolding session_start
  session_start_interrupted none username = (refl, refl)
  session_start_interrupted (some s) none = (refl, refl)
  session_start_interrupted (some s) (some username) =
      let started = start_for_interrupted s username (env.getpwnam username) in
      ground (arith, started)
