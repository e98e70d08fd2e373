-- ===== src/Controller/Stages.antt =====
-- What holds of the context of src/controller.c in each of its states, and how the loop reaches
-- a context.
use mathlib.Core.List.{Memᴰ}
use kia.Base.{ℕ, ◌<◌, ◌≡◌, true, false, List, [], ◌∷◌, length, All, ℤ, pos}
use kia.Code.{Code}
use kia.Text.{Bytes, cstr}
use kia.Config.{Config, name_size}
use kia.Config.Bounds.{IsSized, IsValid}
use kia.Auth.{AuthGlobals}
use kia.Auth.Attempt.{granted, answer}
use kia.Session.Desktop.Fields.{IsSlot}
use kia.Session.Discover.{SessionList}
use kia.Session.Discover.Slots.{IsScanned}
use kia.Session.Start.{found, Passwd}
use kia.Controller.{
  AppState, state_init, state_load_config, state_check_autologin, state_show_login,
  state_get_credentials, state_select_session, state_authenticate, state_start_session, state_exit,
  AppContext, Round, initial_context,
}
use kia.Controller.Loop.{handle, is_exit}

-- Every byte of the array is zero.
abbrev pub IsCleared : Bytes → Type 0
IsCleared = All (λ c. c ≡ 0)

-- The configuration is in range and the list holds at least one session, all of them sound.
pub record IsReady (c : Config) (l : SessionList) : Type 0 where
  pub valid : IsValid c
  pub scanned : IsScanned l
  pub some_session : 0 < l.count

-- The two arrays as nobody has typed yet.
pub record IsFresh (username password : Bytes) : Type 0 where
  pub cleared : IsCleared password
  pub user_sized : length username ≡ name_size

pub record IsSelected (l : SessionList) (selected : ℤ) : Type 0 where
  pub index : ℕ
  pub as_int : selected ≡ pos index
  pub within : index < l.count

-- Why a user may start a session, by the rounds so far: the configuration logs the user in and the
-- user was found, or PAM has taken a password of the user and the account.
pub data IsGranted (rs : List Round) (c : Config) (user : Bytes) : Type 0 where
  by_config :
      (r : Round) (pw : Passwd)
      → Memᴰ r rs
      → c.autologin_enabled ≡ true
      → cstr c.autologin_user ≡ user
      → r.getpwnam user ≡ found pw
      → IsGranted rs c user
  by_password :
      (r : Round) (password : Bytes)
      → Memᴰ r rs
      → answer r.auth.pam user password ≡ granted
      → IsGranted rs c user

pub record MayStart (rs : List Round) (ctx : AppContext) : Type 0 where
  pub ready : IsReady ctx.config ctx.sessions
  pub selected : IsSelected ctx.sessions ctx.selected_session
  pub cleared : IsCleared ctx.password
  pub granted_to : IsGranted rs ctx.config (cstr ctx.username)

unfoldable pub Stage : AppState → List Round → AppContext → Type 0
Stage state_init rs ctx = IsFresh ctx.username ctx.password × IsSized ctx.config
Stage state_load_config rs ctx = IsFresh ctx.username ctx.password × IsSized ctx.config
Stage state_check_autologin rs ctx =
    IsFresh ctx.username ctx.password × IsReady ctx.config ctx.sessions
Stage state_show_login rs ctx = IsReady ctx.config ctx.sessions
Stage state_get_credentials rs ctx = IsReady ctx.config ctx.sessions
Stage state_select_session rs ctx = IsReady ctx.config ctx.sessions
Stage state_authenticate rs ctx =
    IsReady ctx.config ctx.sessions × IsSelected ctx.sessions ctx.selected_session
Stage state_start_session rs ctx = MayStart rs ctx
Stage state_exit rs ctx = IsCleared ctx.password

abbrev pub IsStaged : List Round → AppContext → Type 0
IsStaged rs ctx = Stage ctx.state rs ctx

-- The contexts that the loop goes through, with the rounds so far, the last one first. It begins
-- with the configuration that `main` has loaded. The room
-- that `realloc` gives holds arrays of the declared sizes.
pub data Reachable : List Round → AppContext → AuthGlobals → Type 0 where
  begin :
      (c : Config) (g : AuthGlobals)
      → IsSized c
      → Reachable [] (record initial_context { config = c }) g
  round :
      {rs : List Round} {ctx : AppContext} {g : AuthGlobals}
      → Reachable rs ctx g
      → (result : Code) (r : Round) → is_exit ctx.state ≡ false
      → IsSlot r.files.fresh
      → Reachable
          (r ∷ rs)
          (handle ctx.state r result ctx g).0.0.1
          (handle ctx.state r result ctx g).0.1
