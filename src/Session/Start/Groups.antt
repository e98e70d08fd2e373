-- ===== src/Session/Start/Groups.antt =====
-- The supplementary groups of the session that src/session.c starts.
use Prim.Native.String.{String}
use kia.Base.{
  ℕ, ◌≡◌, refl, ◌∙◌, Bool, true, false, not, ◌||◌, List, Option, none, some, ◌==◌, Bool-cases, inl,
  inr,
}
use kia.Text.{Bytes, codes, cstr}
use kia.Effect.{Effect, Eff, call, ◌>>◌, group_set, user_set, set_environment}
use kia.Session.{SessionType, session_x11, session_wayland, SessionInfo}
use kia.Session.Start.{
  Credentials, ChildEnv, Ended, became, exit_failure, Account, step, set_name, exec_shell,
  exec_session, verify, drop_user, drop_group, enter_home, set_display, run_child,
}
use kia.Session.Start.Privileges.{IfBecame}

-- If the child became a program, it has these supplementary groups.
abbrev pub HasGroups : List ℕ → Eff Ended → Type 0
HasGroups groups = IfBecame (λ program args c es. c.groups ≡ groups)

module _ (groups : List ℕ) where
  step-HasGroups :
      (b : Bool) (e : Effect) (message : String) (rest : Eff Ended)
      → HasGroups groups rest
      → HasGroups groups (step b e message rest)
  unfolding step IfBecame
  step-HasGroups false e message rest h = tt
  step-HasGroups true e message (exit_failure, es) h = tt
  step-HasGroups true e message (became program args c, es) h = h

  set_name-HasGroups :
      (env : ChildEnv) (name value : Bytes) (message : String) (rest : Eff Ended)
      → HasGroups groups rest
      → HasGroups groups (set_name env name value message rest)
  unfolding set_name
  set_name-HasGroups env name value message rest h =
      step-HasGroups (env.sets name) (set_environment name value) message rest h

  exec_shell-HasGroups :
      (env : ChildEnv) (exec : Bytes) (c : Credentials)
      → c.groups ≡ groups
      → HasGroups groups (exec_shell env exec c)
  unfolding exec_shell IfBecame
  exec_shell-HasGroups env exec c h = elim (Bool-cases (env.execs (codes "/bin/sh"))) [
    | inl ok ↦ rw ok h
    | inr failed ↦ rw failed tt
  ]

  exec_session-HasGroups :
      (env : ChildEnv) (t : SessionType) (exec : Bytes) (c : Credentials)
      → c.groups ≡ groups
      → HasGroups groups (exec_session env t exec c)
  unfolding exec_session
  exec_session-HasGroups env session_wayland exec c h = exec_shell-HasGroups env exec c h
  exec_session-HasGroups env session_x11 exec c h = elim (Bool-cases (env.execs (codes "startx"))) [
    | inl ok ↦ rw ok (unfold IfBecame in h)
    | inr failed ↦ rw failed (exec_shell-HasGroups env exec c h)
  ]

  -- A call that only logs, or sets an identity, in front of the rest.
  call-HasGroups :
      (e : Effect) (rest : Eff Ended) → HasGroups groups rest → HasGroups groups (do call e; rest)
  unfolding IfBecame
  call-HasGroups e (exit_failure, es) h = tt
  call-HasGroups e (became program args c, es) h = h

  drop_user-HasGroups :
      (env : ChildEnv) (s : SessionInfo) (a : Account) (o : Option Credentials)
      → ((c : Credentials) → o ≡ some c → c.groups ≡ groups)
      → HasGroups groups (drop_user env s a o)
  unfolding drop_user verify
  drop_user-HasGroups env s a none h = unfold IfBecame in tt
  drop_user-HasGroups env s a (some c) h =
      elim (Bool-cases (
        not (c.ruid == a.uid)
        || not (c.euid == a.uid)
        || not (c.rgid == a.gid)
        || not (c.egid == a.gid))) [
          | inl wrong ↦ rw wrong (unfold IfBecame in tt)
          | inr right ↦ rw right (
              call-HasGroups (user_set a.uid) (exec_session env s.type (cstr s.exec) c)
                (exec_session-HasGroups env s.type (cstr s.exec) c (h c refl)))
        ]

  set_display-HasGroups :
      (env : ChildEnv) (t : SessionType) (rest : Eff Ended)
      → HasGroups groups rest
      → HasGroups groups (set_display env t rest)
  unfolding set_display
  set_display-HasGroups env session_x11 rest h =
      set_name-HasGroups env _ _ _ _ (set_name-HasGroups env _ _ _ rest h)
  set_display-HasGroups env session_wayland rest h =
      set_name-HasGroups env _ _ _ _ (set_name-HasGroups env _ _ _ rest h)

-- `setgid` and `setuid` leave the supplementary groups alone, as POSIX has it.
pub record LeavesGroups (env : ChildEnv) : Type 0 where
  pub by_setgid : (g : ℕ) (c c' : Credentials) → env.setgid g c ≡ some c' → c'.groups ≡ c.groups
  pub by_setuid : (u : ℕ) (c c' : Credentials) → env.setuid u c ≡ some c' → c'.groups ≡ c.groups

drop_group-HasGroups :
    (env : ChildEnv) (s : SessionInfo) (a : Account) (c : Credentials) (o : Option Credentials)
    → LeavesGroups env
    → ((c' : Credentials) → o ≡ some c' → c'.groups ≡ c.groups)
    → HasGroups c.groups (drop_group env s a o)
unfolding drop_group
drop_group-HasGroups env s a c none l h = unfold IfBecame in tt
drop_group-HasGroups env s a c (some c') l h =
    call-HasGroups c.groups (group_set a.gid) (drop_user env s a (env.setuid a.uid c')) (
      drop_user-HasGroups c.groups env s a (env.setuid a.uid c')
        (λ d e. l.by_setuid a.uid c' d e ∙ h c' refl))

-- The child never sets its supplementary groups: where `setgid` and `setuid` leave them alone, as
-- POSIX has it, a session runs with those of the display manager, whatever the user's groups are.
pub run_child-HasGroups :
    (env : ChildEnv) (s : SessionInfo) (a : Account) (c : Credentials)
    → LeavesGroups env
    → HasGroups c.groups (run_child env s a c)
unfolding run_child enter_home
run_child-HasGroups env s a c l = set_name-HasGroups c.groups env _ _ _ _ (
    set_name-HasGroups c.groups env _ _ _ _ (
      set_name-HasGroups c.groups env _ _ _ _ (
        set_name-HasGroups c.groups env _ _ _ _ (
          set_display-HasGroups c.groups env s.type _ (
            step-HasGroups c.groups _ _ _ _ (
              drop_group-HasGroups env s a c (env.setgid a.gid c) l
                (λ c' e. l.by_setgid a.gid c c' e)))))))
