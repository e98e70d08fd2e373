-- ===== src/Controller/Cleanup.antt =====
-- What `controller_cleanup` of src/controller.c leaves behind.
use kia.Base.{◌≡◌, refl, none, some, Option-cases, inl, inr, arith}
use kia.Auth.{AuthGlobals, Terminal, idle, auth_cleanup, tty_unlock}
use kia.Session.Discover.{session_list_free, free_sessions, SessionList}
use kia.Controller.{AppContext}
use kia.Controller.Loop.{controller_cleanup}
use kia.Controller.Stages.{IsCleared}
use kia.Controller.Keeps.{secure_memzero-IsCleared}

freed : (l : SessionList) → (session_list_free l).sessions ≡ none
unfolding session_list_free free_sessions
freed l = elim (Option-cases l.sessions) [
  | inl missing ↦ rw missing refl
  | inr (array, given) ↦ rw given refl
]

auth_cleanup-idle : (t : Terminal) (g : AuthGlobals) → (auth_cleanup t g).0 ≡ idle
unfolding auth_cleanup tty_unlock
auth_cleanup-idle t g = ground arith

-- What is left of a context and of the authentication module.
pub record IsClean (ctx : AppContext) (g : AuthGlobals) : Type 0 where
  pub cleared : IsCleared ctx.password
  pub no_list : ctx.sessions.sessions ≡ none
  pub no_handles : g ≡ idle

-- From every context and every state of the authentication module, `controller_cleanup` clears the
-- password, leaves no list of sessions, and keeps neither a PAM handle nor a terminal.
pub controller_cleanup-IsClean :
    (t : Terminal) (ctx : AppContext) (g : AuthGlobals)
    → (ctx' : AppContext) × ((controller_cleanup t (some ctx) g).0.0 ≡ some ctx')
      × IsClean ctx' (controller_cleanup t (some ctx) g).0.1
unfolding controller_cleanup
controller_cleanup-IsClean t ctx g = (
  _,
  refl,
  record {
    cleared = secure_memzero-IsCleared ctx.password;
    no_list = freed ctx.sessions;
    no_handles = auth_cleanup-idle t g;
  },
)
