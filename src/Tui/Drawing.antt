-- ===== src/Tui/Drawing.antt =====
-- What src/tui.c draws outside its input loops: the start, the login screen, and the messages.
pub mod Messages
use kia.Base.{
  ℕ, ◌+◌, ◌-◌, ◌/◌, Bool, not, ◌&&◌, [], ◌∷◌, ◌++◌, Option, none, some, length, set, ltb,
  if◌then◌else◌,
}
use kia.Code.{Code, success, error_system}
use kia.Text.{Bytes, codes, cstr, is_empty, zeros, strncpy}
use kia.Effect.{
  Eff, pure, ◌>>=◌, ◌>>◌, initscr, endwin, cbreak, noecho, keypad, start_color, clear, clrtoeol,
  refresh, curs_set, napms, init_pair, black, red, green, white, move,
}
use kia.Tui.{Screen, too_small, centred, draw, print, print_in}

abbrev pub color_normal : ℕ
color_normal = 1

abbrev pub color_error : ℕ
color_error = 2

abbrev pub color_highlight : ℕ
color_highlight = 3

abbrev pub color_message : ℕ
color_message = 4

-- Whether `initscr` works, and what `has_colors` answers.
unfoldable pub tui_init : Bool → Bool → Eff Code
tui_init starts colors = if not starts then (do draw initscr; pure error_system) else do
  draw initscr
  draw cbreak
  draw noecho
  draw keypad
  draw (curs_set 1)
  (if colors
      then (do
        draw start_color
        draw (init_pair color_normal white black)
        draw (init_pair color_error red black)
        draw (init_pair color_highlight black white)
        draw (init_pair color_message green black))
      else pure tt)
  pure success

unfoldable pub tui_cleanup : Eff (Unit {0})
tui_cleanup = draw endwin

-- A null or empty string is replaced.
abbrev pub or_default : Option Bytes → Bytes → Bytes
or_default none d = d
or_default (some []) d = d
or_default (some (c ∷ cs)) d = c ∷ cs

abbrev pub line_size : ℕ
line_size = 512

-- A line of the login screen; the next row is the result. `snprintf` gives the length of the whole
-- text, and a text that does not fit its array is not printed.
unfoldable pub draw_line : Screen → ℕ → Bytes → Eff ℕ
draw_line s row text =
    if ltb 0 (length text) && ltb (length text) line_size
    then (do print row (centred s (length text)) text; pure (row + 1))
    else pure row

-- The screen is large enough.
unfoldable pub draw_login : Screen → Option Bytes → Option Bytes → Eff (Unit {0})
unfolding draw_line
draw_login s hostname version = do
  draw clear
  let row = s.max_y / 4
  print row (centred s (length (codes "Welcome to Kia"))) (codes "Welcome to Kia")
  next ← draw_line s (row + 2) (codes "hostname: " ++ or_default hostname (codes "localhost"))
  _ ← draw_line s next (codes "version: " ++ or_default version (codes "1.0.0"))
  draw refresh

unfoldable pub tui_draw_login_screen : Screen → Option Bytes → Option Bytes → Eff (Unit {0})
unfolding draw_login
tui_draw_login_screen s hostname version =
    if not s.started
    then pure tt
    else if too_small s 10 40
    then (do draw clear; print 0 0 (codes "Terminal too small"); draw refresh)
    else draw_login s hostname version

-- `max_msg_len`: what fits beside the dots, and the array.
unfoldable pub message_room : Screen → ℕ
message_room s =
    let fits = if ltb 3 s.max_x then s.max_x - 3 else 0 in
    if ltb (line_size - 1) fits then line_size - 1 else fits

-- The array `truncated`, which `strncpy` writes as far as it is read.
unfoldable pub cut_message : Bytes → ℕ → Bytes
unfolding strncpy set
cut_message message n = set (strncpy (zeros line_size) message n) n 0

-- The message is not empty, and the screen is large enough.
unfoldable pub draw_message : ℕ → ℕ → Screen → Bytes → Eff (Unit {0})
unfolding cut_message message_room
draw_message pair delay s message = do
  let row = s.max_y - 3
  draw (move row 0)
  draw clrtoeol
  (if ltb s.max_x (length message)
      then print_in s pair row 0 (cstr (cut_message message (message_room s)) ++ codes "...")
      else print_in s pair row (centred s (length message)) message)
  draw refresh
  draw (napms delay)

unfoldable pub show_text : ℕ → ℕ → Screen → Option Bytes → Eff (Unit {0})
unfolding draw_message
show_text pair delay s none = pure tt
show_text pair delay s (some message) =
    if is_empty message
    then pure tt
    else if not s.started
    then pure tt
    else if too_small s 3 10
    then pure tt
    else draw_message pair delay s message

-- A null message is `none`.
unfoldable pub tui_show_error : Screen → Option Bytes → Eff (Unit {0})
unfolding show_text
tui_show_error = show_text color_error 2000

unfoldable pub tui_show_message : Screen → Option Bytes → Eff (Unit {0})
unfolding show_text
tui_show_message = show_text color_message 1500
