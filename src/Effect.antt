-- ===== src/Effect.antt =====
-- What the program asks of the system, in order. A component's function returns its result beside
-- the list of the calls that it made; the answers come in as arguments.
pub mod Quiet
use Prim.Native.String.{String}
use kia.Base.{ℕ, Bool, List, [], ◌∷◌, ◌++◌}
use kia.Text.{Bytes}

-- `log_level_t`
pub data Level : Type 0 where
  debug info warn error : Level

-- A result of PAM: PAM_SUCCESS, or another code.
pub data PamStatus : Type 0 where
  pam_success : PamStatus
  pam_failure : ℕ → PamStatus

-- The colours of ncurses that the program uses.
pub data Color : Type 0 where
  black red green white : Color

-- The calls of ncurses. `mvprintw` has its row, its column and the text that it prints.
pub data Curses : Type 0 where
  initscr endwin cbreak noecho keypad start_color clear clrtoeol refresh : Curses
  curs_set attron attroff napms : ℕ → Curses
  init_pair : ℕ → Color → Color → Curses
  mvprintw : ℕ → ℕ → Bytes → Curses
  move : ℕ → ℕ → Curses

-- Where a program prints.
pub data Stream : Type 0 where
  stdout stderr : Stream

pub data Effect : Type 0 where
  -- `printf` and `fprintf`, with the text
  printed : Stream → Bytes → Effect
  -- `logger_log`, by its level and format string
  log : Level → String → Effect
  logger_started : Bool → Effect
  logger_closed : Effect
  -- the terminal
  tty_opened : ℕ → Effect
  vt_locked : ℕ → Effect
  vt_unlocked : ℕ → Effect
  descriptor_closed : ℕ → Effect
  -- PAM, by handle; of `pam_start`, for whom and whether it succeeds
  pam_started : Bytes → Bool → Effect
  pam_authenticated : ℕ → Effect
  pam_account_checked : ℕ → Effect
  pam_ended : ℕ → PamStatus → Effect
  -- processes
  forked : Effect
  waited : ℕ → Effect
  -- a signal has come, and `signal_handler` has run
  signalled : ℕ → Effect
  set_environment : Bytes → Bytes → Effect
  changed_directory : Bytes → Effect
  group_set : ℕ → Effect
  user_set : ℕ → Effect
  executed : Bytes → List Bytes → Effect
  exited : Bool → Effect
  screen : Curses → Effect

abbrev pub Eff {ℓ} : Type ℓ → Type ℓ
Eff A = A × List Effect

module _ {ℓ} {A : Type ℓ} where
  abbrev pub pure : A → Eff A
  pure a = (a, [])

abbrev pub call : Effect → Eff (Unit {0})
call e = (tt, e ∷ [])

infixl 5 ◌>>=◌ ◌>>◌
abbrev pub ◌>>=◌ {ℓ κ} : {A : Type ℓ} {B : Type κ} → Eff A → (A → Eff B) → Eff B
◌>>=◌ m f = let (b, es) = f m.0 in (b, m.1 ++ es)

abbrev pub ◌>>◌ {ℓ} : {B : Type ℓ} → Eff (Unit {0}) → Eff B → Eff B
m >> n = m >>= λ _. n
