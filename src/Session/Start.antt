-- ===== src/Session/Start.antt =====
-- `session_start` of src/session.c: the parent, and the child that becomes the session.
pub mod Privileges
pub mod Groups
pub mod Quiet
pub mod Interrupted
use Prim.Native.String.{String}
use kia.Base.{
  ℕ, Bool, true, false, not, ◌&&◌, ◌||◌, List, [], ◌∷◌, Option, none, some, ◌==◌, if◌then◌else◌,
}
use kia.Code.{Code, success, error_session}
use kia.Text.{Bytes, codes, cstr, is_empty}
use kia.Effect.{
  Effect, Eff, pure, call, ◌>>=◌, ◌>>◌, info, warn, error, log, forked, waited, signalled,
  set_environment, changed_directory, group_set, user_set, executed, exited,
}
use kia.Session.{SessionType, session_x11, session_wayland, SessionInfo}

-- `struct passwd`, as far as it is used. The two strings may be null.
pub record Passwd : Type 0 where
  pub pw_dir : Option Bytes
  pub pw_shell : Option Bytes
  pub pw_uid : ℕ
  pub pw_gid : ℕ

-- What `getpwnam` answers: an entry, or null with `errno` unset or set.
pub data UserEntry : Type 0 where
  found : Passwd → UserEntry
  unknown_user unreadable : UserEntry

-- The identity of a process.
pub record Credentials : Type 0 where
  pub ruid : ℕ
  pub euid : ℕ
  pub rgid : ℕ
  pub egid : ℕ
  pub groups : List ℕ

-- What the system answers the child: `setenv` by name, `chdir`, `setgid` and `setuid` with the
-- identity that they leave, and whether a program can be executed.
pub record ChildEnv : Type 0 where
  pub sets : Bytes → Bool
  pub chdirs : Bytes → Bool
  pub setgid : ℕ → Credentials → Option Credentials
  pub setuid : ℕ → Credentials → Option Credentials
  pub execs : Bytes → Bool

-- How a child ends its own part: as another program with an identity, or by `exit(EXIT_FAILURE)`.
pub data Ended : Type 0 where
  became : Bytes → List Bytes → Credentials → Ended
  exit_failure : Ended

-- What `waitpid` reports.
pub data Waited : Type 0 where
  wait_failed : Waited
  exited_with : ℕ → Waited
  killed_by : ℕ → Waited
  other_status : Waited

-- The user that a session is started for, with the checks of the parent behind it.
pub record Account : Type 0 where
  pub username : Bytes
  pub home : Bytes
  pub shell : Bytes
  pub uid : ℕ
  pub gid : ℕ

abbrev fail : String → Eff Ended
fail message = do call (log error message); call (exited false); pure exit_failure

-- One call of the child that ends it on failure.
unfoldable pub step : Bool → Effect → String → Eff Ended → Eff Ended
step true e message rest = do call e; rest
step false e message rest = fail message

unfoldable pub set_name : ChildEnv → Bytes → Bytes → String → Eff Ended → Eff Ended
unfolding step
set_name env name value message rest =
    step (env.sets name) (set_environment name value) message rest

abbrev shell_program : Bytes
shell_program = codes "/bin/sh"

-- `execlp("/bin/sh", "sh", "-c", session->exec, NULL)`, and what follows if it returns.
unfoldable pub exec_shell : ChildEnv → Bytes → Credentials → Eff Ended
exec_shell env exec c =
    let args = codes "sh" ∷ codes "-c" ∷ exec ∷ [] in
    if env.execs shell_program
    then (do call (executed shell_program args); pure (became shell_program args c))
    else fail "Failed to execute session '%s': %s"

unfoldable pub exec_session : ChildEnv → SessionType → Bytes → Credentials → Eff Ended
unfolding exec_shell
exec_session env session_x11 exec c =
    let program = codes "startx" in
    let args = codes "startx" ∷ exec ∷ [] in
    if env.execs program
    then (do call (executed program args); pure (became program args c))
    else exec_shell env exec c
exec_session env session_wayland exec c = exec_shell env exec c

-- The check of the identity.
unfoldable pub verify : ChildEnv → SessionInfo → Account → Credentials → Eff Ended
unfolding exec_session
verify env s a c =
    if not (c.ruid == a.uid)
      || not (c.euid == a.uid)
      || not (c.rgid == a.gid)
      || not (c.egid == a.gid)
    then fail "Failed to drop privileges properly (uid=%d/%d, gid=%d/%d)"
    else exec_session env s.type (cstr s.exec) c

drop_user : ChildEnv → SessionInfo → Account → Option Credentials → Eff Ended
unfolding verify
drop_user env s a none = fail "Failed to setuid(%d): %s"
drop_user env s a (some c) = do call (user_set a.uid); verify env s a c

drop_group : ChildEnv → SessionInfo → Account → Option Credentials → Eff Ended
unfolding drop_user
drop_group env s a none = fail "Failed to setgid(%d): %s"
drop_group env s a (some c) = do call (group_set a.gid); drop_user env s a (env.setuid a.uid c)

-- Behind the environment: the directory, then the group before the user.
unfoldable pub enter_home : ChildEnv → SessionInfo → Account → Credentials → Eff Ended
unfolding step drop_group
enter_home env s a c =
    step (env.chdirs a.home) (changed_directory a.home)
      "Failed to change to home directory '%s': %s" (drop_group env s a (env.setgid a.gid c))

-- The variables that tell the kind of the session.
unfoldable pub set_display : ChildEnv → SessionType → Eff Ended → Eff Ended
unfolding set_name
set_display env session_x11 rest =
    set_name env (codes "XDG_SESSION_TYPE") (codes "x11") "Failed to set X11 environment: %s"
      (set_name env (codes "DISPLAY") (codes ":0") "Failed to set X11 environment: %s" rest)
set_display env session_wayland rest =
    set_name env (codes "XDG_SESSION_TYPE") (codes "wayland")
      "Failed to set Wayland environment: %s"
      (set_name env (codes "WAYLAND_DISPLAY") (codes "wayland-0")
        "Failed to set Wayland environment: %s" rest)

-- The child process.
unfoldable pub run_child : ChildEnv → SessionInfo → Account → Credentials → Eff Ended
unfolding set_name set_display enter_home
run_child env s a c = set_name env (codes "HOME") a.home "Failed to set HOME: %s" (
    set_name env (codes "USER") a.username "Failed to set USER: %s" (
      set_name env (codes "LOGNAME") a.username "Failed to set LOGNAME: %s" (
        set_name env (codes "SHELL") a.shell "Failed to set SHELL: %s"
          (set_display env s.type (enter_home env s a c)))))

-- What the system answers the parent; `forks` is the process of the child. `interrupts` is a
-- signal that comes while `waitpid` waits, if one does; `waits` is what it reports otherwise.
pub record StartEnv : Type 0 where
  pub getpwnam : Bytes → UserEntry
  pub forks : Option ℕ
  pub interrupts : Option ℕ
  pub waits : Waited

unfoldable pub wait_child : ℕ → Waited → Eff Code
wait_child pid wait_failed = do
  call (log error "Failed to wait for child process: %s")
  pure error_session
wait_child pid (exited_with status) = do
  call (waited pid)
  call (log info "Session exited with status %d")
  pure (if status == 0 then success else error_session)
wait_child pid (killed_by signal) = do
  call (waited pid)
  call (log warn "Session terminated by signal %d")
  pure error_session
wait_child pid other_status = do call (waited pid); pure success

-- `sa_flags` is 0 in src/main.c, without SA_RESTART: a signal makes `waitpid` fail with EINTR.
unfoldable pub wait_for : ℕ → StartEnv → Eff Code
unfolding wait_child
wait_for pid env = elim env.interrupts [
  | none ↦ wait_child pid env.waits
  | some signum ↦ call (signalled signum) >> wait_child pid wait_failed
]

-- The result of the parent, and the account that a child was started for.
unfoldable pub fork_for : StartEnv → Account → Option ℕ → Eff (Code × Option Account)
unfolding wait_for
fork_for env a none = do call (log error "Failed to fork: %s"); pure (error_session, none)
fork_for env a (some pid) = do
  call forked
  call (log info "Session started with PID %d")
  code ← wait_for pid env
  pure (code, some a)

-- A null or empty string of the password file.
abbrev given : Option Bytes → Bool
given none = false
given (some s) = not (is_empty s)

abbrev pub string_or : Option Bytes → Bytes → Bytes
string_or none d = d
string_or (some []) d = d
string_or (some (c ∷ cs)) d = c ∷ cs

abbrev refuse : String → Eff (Code × Option Account)
refuse message = do call (log error message); pure (error_session, none)

unfoldable pub start_for : StartEnv → SessionInfo → Bytes → UserEntry → Eff (Code × Option Account)
unfolding fork_for
start_for env s username unknown_user = refuse "User not found: %s"
start_for env s username unreadable = refuse "Failed to get user info for '%s': %s"
start_for env s username (found pw) =
    let a : Account = record {
      username = username;
      home = string_or pw.pw_dir [];
      shell = string_or pw.pw_shell (codes "/bin/sh");
      uid = pw.pw_uid;
      gid = pw.pw_gid;
    } in
    if not (given pw.pw_dir) then refuse "User '%s' has no home directory" else do
      (if given pw.pw_shell
          then pure tt
          else call (log warn "User '%s' has no shell, using /bin/sh"))
      call (log info "Starting %s session '%s' for user '%s'")
      fork_for env a env.forks

-- A null pointer is `none`.
unfoldable pub session_start :
    StartEnv → Option SessionInfo → Option Bytes → Eff (Code × Option Account)
unfolding start_for
session_start env (some s) (some username) =
    if is_empty username
    then refuse "Empty username provided"
    else if is_empty (cstr s.name) || is_empty (cstr s.exec)
    then refuse "Invalid session: empty name or exec"
    else start_for env s username (env.getpwnam username)
session_start env s username = refuse "Invalid session or username"
