-- ===== src/Session/Start/Quiet.antt =====
-- The calls of the parent in `session_start` of src/session.c.
use kia.Base.{ℕ, [], refl, Option, none, some, arith}
use kia.Text.{Bytes, codes}
use kia.Effect.Quiet.{IsQuiet}
use kia.Session.{SessionInfo}
use kia.Session.Start.{
  Account, StartEnv, UserEntry, found, unknown_user, unreadable, wait_child, wait_for, fork_for,
  string_or, start_for, session_start,
}

fork_for-IsQuiet : (env : StartEnv) (a : Account) (pid : Option ℕ) → IsQuiet (fork_for env a pid).1
unfolding fork_for wait_for wait_child
fork_for-IsQuiet env a none = refl
fork_for-IsQuiet env a (some pid) = ground arith

start_for-IsQuiet :
    (env : StartEnv) (s : SessionInfo) (username : Bytes) (e : UserEntry)
    → IsQuiet (start_for env s username e).1
unfolding start_for
start_for-IsQuiet env s username unknown_user = refl
start_for-IsQuiet env s username unreadable = refl
start_for-IsQuiet env s username (found pw) =
    let forked =
      fork_for-IsQuiet env
        (record {
          username = username;
          home = string_or pw.pw_dir [];
          shell = string_or pw.pw_shell (codes "/bin/sh");
          uid = pw.pw_uid;
          gid = pw.pw_gid;
        })
        env.forks in
    ground (arith, forked)

pub session_start-IsQuiet :
    (env : StartEnv) (s : Option SessionInfo) (username : Option Bytes)
    → IsQuiet (session_start env s username).1
unfolding session_start
session_start-IsQuiet env none username = refl
session_start-IsQuiet env (some s) none = refl
session_start-IsQuiet env (some s) (some username) =
    let started = start_for-IsQuiet env s username (env.getpwnam username) in
    ground (arith, started)
