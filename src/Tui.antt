-- ===== src/Tui.antt =====
-- src/tui.c: the keyboard and the screen as its input loops see them.
pub mod Credentials
pub mod Menu
pub mod Drawing
pub mod Inside
pub mod Quiet
use kia.Base.{
  ℕ, ◌+◌, ◌-◌, ◌/◌, Bool, true, false, Option, List, [], ◌∷◌, ◌++◌, length, replicate, ltb, ◌||◌,
  if◌then◌else◌,
}
use kia.Text.{Bytes}
use kia.Effect.{Effect, Eff, Curses, mvprintw, attron, attroff, pure, call, ◌>>=◌, ◌>>◌, screen}

-- What `getch` returns: a byte, or one of the function keys that the program tells apart.
pub data Key : Type 0 where
  char : ℕ → Key
  key_enter key_down key_up key_backspace other_key : Key

-- One round of an input loop: whether `clear` and `refresh` work, and the key; `none` is ERR.
pub record Turn : Type 0 where
  pub cleared : Bool
  pub refreshed : Bool
  pub key : Option Key

-- Whether `stdscr` is there, its size, and `has_colors`.
pub record Screen : Type 0 where
  pub started : Bool
  pub max_y : ℕ
  pub max_x : ℕ
  pub colors : Bool

-- `max_y < rows || max_x < columns`
abbrev pub too_small : Screen → ℕ → ℕ → Bool
too_small s rows columns = ltb s.max_y rows || ltb s.max_x columns

-- `%-ns`: spaces behind a text that is shorter than n.
unfoldable pub pad_right : ℕ → Bytes → Bytes
unfolding replicate
pad_right n t = t ++ replicate (n - length t) b' '

-- The column that centres a text of the length; a column below 0 is set to 0.
abbrev pub centred : Screen → ℕ → ℕ
centred s len = (s.max_x - len) / 2

abbrev pub draw : Curses → Eff (Unit {0})
draw c = call (screen c)

abbrev pub print : ℕ → ℕ → Bytes → Eff (Unit {0})
print row col text = draw (mvprintw row col text)

-- A text between `attron` and `attroff`, where the screen has colours.
abbrev pub print_in : Screen → ℕ → ℕ → ℕ → Bytes → Eff (Unit {0})
print_in s pair row col text =
    if s.colors
    then (do draw (attron pair); print row col text; draw (attroff pair))
    else print row col text
