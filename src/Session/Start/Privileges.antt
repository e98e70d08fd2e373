-- ===== src/Session/Start/Privileges.antt =====
-- With which identity and environment the child of src/session.c becomes the session.
use mathlib.Core.List.{Memᴰ}
use Prim.Native.String.{String}
use kia.Base.{
  All, ap, ◌≡◌, refl, Bool, true, false, not, ◌||◌, List, [], ◌∷◌, ◌++◌, Option, none, some, ◌==◌,
  arith, Bool-cases, inl, inr,
}
use kia.Text.{Bytes, codes, cstr}
use kia.Effect.{
  Effect, Eff, call, ◌>>◌, set_environment, changed_directory, group_set, user_set, executed,
}
use kia.Session.{SessionType, session_x11, session_wayland, SessionInfo}
use kia.Session.Start.{
  Credentials, ChildEnv, Ended, became, exit_failure, Account, step, set_name, exec_shell,
  exec_session, verify, drop_user, drop_group, enter_home, set_display, run_child,
}

-- If the child became a program, the property holds of the program, its arguments, its identity,
-- and of the calls that led there.
unfoldable pub IfBecame :
    (Bytes → List Bytes → Credentials → List Effect → Type 0) → Eff Ended → Type 0
IfBecame P (became program args c, es) = P program args c es
IfBecame P (exit_failure, es) = Unit {0}

-- The identity of the account.
pub record IsAccount (a : Account) (c : Credentials) : Type 0 where
  pub real_user : c.ruid ≡ a.uid
  pub effective_user : c.euid ≡ a.uid
  pub real_group : c.rgid ≡ a.gid
  pub effective_group : c.egid ≡ a.gid

-- The child runs as the account; the last calls before the program set the group and then the
-- user; and each of the calls `required` was made.
pub record IsLaunched (a : Account) (required : List Effect) (program : Bytes) (args : List Bytes)
    (c : Credentials) (es : List Effect) : Type 0 where
  pub as_account : IsAccount a c
  pub before : List Effect
  pub order : es ≡ before ++ group_set a.gid ∷ user_set a.uid ∷ executed program args ∷ []
  pub made : All (λ e. Memᴰ e es) required

All-tail :
    (e : Effect) (es required : List Effect)
    → All (λ x. Memᴰ x es) required
    → All (λ x. Memᴰ x (e ∷ es)) required
All-tail e es [] h = tt
All-tail e es (x ∷ required) h = (Memᴰ.tail h.0, All-tail e es required h.1)

module _ (a : Account) where
  step-IsLaunched :
      (b : Bool) (e : Effect) (message : String) (required : List Effect) (rest : Eff Ended)
      → IfBecame (IsLaunched a required) rest
      → IfBecame (IsLaunched a (e ∷ required)) (step b e message rest)
  unfolding step IfBecame
  step-IsLaunched false e message required rest h = tt
  step-IsLaunched true e message required (exit_failure, es) h = tt
  step-IsLaunched true e message required (became program args c, es) h = record {
    as_account = h.as_account;
    before = e ∷ h.before;
    order = ap (◌∷◌ e) h.order;
    made = (Memᴰ.head refl, All-tail e es required h.made);
  }

  -- What the exec calls leave, behind the two identity calls.
  executed-IsLaunched :
      (env : ChildEnv) (t : SessionType) (exec : Bytes) (c : Credentials)
      → IsAccount a c
      → IfBecame
          (IsLaunched a [])
          (do call (group_set a.gid); call (user_set a.uid); exec_session env t exec c)
  unfolding exec_session exec_shell IfBecame
  executed-IsLaunched env session_x11 exec c h = elim (Bool-cases (env.execs (codes "startx"))) [
    | inl ok ↦ rw ok (launched _ _)
    | inr failed ↦ elim (Bool-cases (env.execs (codes "/bin/sh"))) [
      | inl ok ↦ rw (failed, ok) (launched _ _)
      | inr none_left ↦ rw (failed, none_left) tt
    ]
  ]
    where
      launched :
          (program : Bytes) (args : List Bytes)
          → IsLaunched a [] program args c
              (group_set a.gid ∷ user_set a.uid ∷ executed program args ∷ [])
      launched program args = record { as_account = h; before = []; order = refl; made = tt }
  executed-IsLaunched env session_wayland exec c h =
      elim (Bool-cases (env.execs (codes "/bin/sh"))) [
        | inl ok ↦ rw ok (record { as_account = h; before = []; order = refl; made = tt })
        | inr none_left ↦ rw none_left tt
      ]

  drop_user-IsLaunched :
      (env : ChildEnv) (s : SessionInfo) (o : Option Credentials)
      → IfBecame (IsLaunched a []) (do call (group_set a.gid); drop_user env s a o)
  unfolding drop_user verify IfBecame
  drop_user-IsLaunched env s none = tt
  drop_user-IsLaunched env s (some c) =
      elim (Bool-cases (
        not (c.ruid == a.uid)
        || not (c.euid == a.uid)
        || not (c.rgid == a.gid)
        || not (c.egid == a.gid))) [
          | inl wrong ↦ rw wrong tt
          | inr right ↦ rw right (executed-IsLaunched env s.type (cstr s.exec) c (ground arith))
        ]

  drop_group-IsLaunched :
      (env : ChildEnv) (s : SessionInfo) (o : Option Credentials)
      → IfBecame (IsLaunched a []) (drop_group env s a o)
  unfolding drop_group IfBecame
  drop_group-IsLaunched env s none = tt
  drop_group-IsLaunched env s (some c) = drop_user-IsLaunched env s (env.setuid a.uid c)

  -- The calls that set the kind of the session.
  abbrev pub display_calls : SessionType → List Effect
  display_calls session_x11 =
      set_environment (codes "XDG_SESSION_TYPE") (codes "x11")
      ∷ set_environment (codes "DISPLAY") (codes ":0")
      ∷ []
  display_calls session_wayland =
      set_environment (codes "XDG_SESSION_TYPE") (codes "wayland")
      ∷ set_environment (codes "WAYLAND_DISPLAY") (codes "wayland-0")
      ∷ []

  set_display-IsLaunched :
      (env : ChildEnv) (t : SessionType) (required : List Effect) (rest : Eff Ended)
      → IfBecame (IsLaunched a required) rest
      → IfBecame (IsLaunched a (display_calls t ++ required)) (set_display env t rest)
  unfolding set_display set_name
  set_display-IsLaunched env session_x11 required rest h =
      step-IsLaunched _ _ _ _ _ (step-IsLaunched _ _ _ _ _ h)
  set_display-IsLaunched env session_wayland required rest h =
      step-IsLaunched _ _ _ _ _ (step-IsLaunched _ _ _ _ _ h)

  -- Whatever the system answers: if the child becomes a program, it runs with the user and the
  -- group of the account, real and effective; it set the group before the user; and it set HOME,
  -- USER, LOGNAME, SHELL and the variables of the kind of session, and went to the home directory.
  pub run_child-IsLaunched :
      (env : ChildEnv) (s : SessionInfo) (c : Credentials)
      → IfBecame
          (IsLaunched a (
            set_environment (codes "HOME") a.home
            ∷ set_environment (codes "USER") a.username
            ∷ set_environment (codes "LOGNAME") a.username
            ∷ set_environment (codes "SHELL") a.shell
            ∷ (display_calls s.type ++ changed_directory a.home ∷ [])))
          (run_child env s a c)
  unfolding run_child set_name enter_home
  run_child-IsLaunched env s c = step-IsLaunched _ _ _ _ _ (
      step-IsLaunched _ _ _ _ _ (
        step-IsLaunched _ _ _ _ _ (
          step-IsLaunched _ _ _ _ _ (
            set_display-IsLaunched env s.type _ _
              (step-IsLaunched _ _ _ _ _ (drop_group-IsLaunched env s (env.setgid a.gid c)))))))
