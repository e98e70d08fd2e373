-- ===== src/Tui/Credentials.antt =====
-- `tui_get_credentials` of src/tui.c: the two fields, their arrays, and what is drawn of them.
pub mod Texts
pub mod Arrays
pub mod Refinement
pub mod Typed
pub mod Secrecy
pub mod Inside
use kia.Base.{
  ℕ, ◌+◌, ◌-◌, ◌/◌, Bool, true, false, not, ◌&&◌, ◌||◌, List, [], ◌∷◌, ◌++◌, Option, none, some,
  set, ltb, leb, ◌==◌, if◌then◌else◌, replicate, length,
}
use kia.Code.{Code, success, error_system}
use kia.Text.{codes, cstr, Bytes, zeros}
use kia.Effect.{Eff, Curses, move, refresh, pure, call, ◌>>=◌, ◌>>◌}
use kia.Tui.{
  Key, char, key_enter, key_down, key_up, key_backspace, other_key, Turn, Screen, too_small,
  pad_right, centred, draw, print,
}

pub data Field : Type 0 where
  username_field password_field : Field

-- The cases of the `switch`.
pub data Action : Type 0 where
  submit next_field previous_field erase wipe ignore : Action
  type : ℕ → Action

unfoldable pub action_of : Key → Action
action_of key_enter = submit
action_of key_down = next_field
action_of key_up = previous_field
action_of key_backspace = erase
action_of other_key = ignore
action_of (char c) =
    if c == b'\n'
    then submit
    else if c == b'\t'
    then next_field
    else if c == 127 || c == 8
    then erase
    else if c == 27
    then wipe
    else if leb 32 c && leb c 126
    then type c
    else ignore

-- The local variables of the loop and the two arrays.
pub record Fields : Type 0 where
  pub field : Field
  pub username : Bytes
  pub username_pos : ℕ
  pub password : Bytes
  pub password_pos : ℕ

abbrev pub max_typed : ℕ
max_typed = 20

abbrev pub other_field : Field → Field
other_field username_field = password_field
other_field password_field = username_field

erase_in : Field → Fields → Fields
erase_in username_field f =
    if ltb 0 f.username_pos
    then record f {
      username = set f.username (f.username_pos - 1) 0;
      username_pos = f.username_pos - 1;
    }
    else f
erase_in password_field f =
    if ltb 0 f.password_pos
    then record f {
      password = set f.password (f.password_pos - 1) 0;
      password_pos = f.password_pos - 1;
    }
    else f

wipe_in : ℕ → ℕ → Field → Fields → Fields
wipe_in user_len pass_len username_field f = record f {
  username = zeros user_len;
  username_pos = 0;
}
wipe_in user_len pass_len password_field f = record f {
  password = zeros pass_len;
  password_pos = 0;
}

type_in : ℕ → ℕ → ℕ → Field → Fields → Fields
type_in user_len pass_len c username_field f =
    if ltb f.username_pos (user_len - 1) && ltb f.username_pos max_typed
    then record f {
      username = set (set f.username f.username_pos c) (f.username_pos + 1) 0;
      username_pos = f.username_pos + 1;
    }
    else f
type_in user_len pass_len c password_field f =
    if ltb f.password_pos (pass_len - 1) && ltb f.password_pos max_typed
    then record f {
      password = set (set f.password f.password_pos c) (f.password_pos + 1) 0;
      password_pos = f.password_pos + 1;
    }
    else f

-- What a key does that does not end the loop.
unfoldable pub edit : ℕ → ℕ → Action → Fields → Fields
unfolding erase_in wipe_in type_in
edit user_len pass_len submit f = f
edit user_len pass_len next_field f = record f { field = other_field f.field }
edit user_len pass_len previous_field f = record f { field = other_field f.field }
edit user_len pass_len erase f = erase_in f.field f
edit user_len pass_len wipe f = wipe_in user_len pass_len f.field f
edit user_len pass_len ignore f = f
edit user_len pass_len (type c) f = type_in user_len pass_len c f.field f

-- The arrays at the end of a successful entry.
abbrev pub finish : Fields → Fields
finish f = record f {
  username = set f.username f.username_pos 0;
  password = set f.password f.password_pos 0;
}

abbrev pub is_submit : Action → Bool
is_submit submit = true
is_submit _ = false

abbrev pub max_input_len : ℕ
max_input_len = 255

abbrev pub field_row : Screen → ℕ
field_row s = s.max_y / 2

-- A column below 0 is set to 0, and for the input to 10.
abbrev pub label_col : Screen → ℕ
label_col s = s.max_x / 2 - 20

abbrev pub input_col : Screen → ℕ
input_col s = if ltb (s.max_x / 2) 5 then 10 else s.max_x / 2 - 5

-- "[%-20s]"
abbrev pub boxed : Bytes → Bytes
boxed t = b'[' ∷ (pad_right 20 t ++ b']' ∷ [])

abbrev pub masked : ℕ → Bytes
masked n = replicate n b'*'

abbrev pub cursor : Screen → Fields → Curses
cursor s f = elim f.field [
  | username_field ↦ move (field_row s) (input_col s + 1 + f.username_pos)
  | password_field ↦ move (field_row s + 2) (input_col s + 1 + f.password_pos)
]

-- The part of the loop that draws.
unfoldable pub draw_fields : Screen → Fields → Eff (Unit {0})
draw_fields s f = do
  print (field_row s) (label_col s) (codes "Username:")
  print (field_row s) (input_col s) (boxed (cstr f.username))
  print (field_row s + 2) (label_col s) (codes "Password:")
  (if leb f.password_pos max_input_len
      then print (field_row s + 2) (input_col s) (boxed (masked f.password_pos))
      else pure tt)
  print (field_row s + 4) (centred s (length (codes "[Press Enter to login]")))
      (codes "[Press Enter to login]")
  draw (cursor s f)
  draw refresh

-- The loop. When the list of turns ends, so does the input, and `getch` returns ERR.
unfoldable pub enter_fields : Screen → ℕ → ℕ → List Turn → Fields → Eff (Code × Fields)
unfolding edit draw_fields
enter_fields s user_len pass_len [] f = do draw_fields s f; pure (error_system, f)
enter_fields s user_len pass_len (t ∷ ts) f = do
  draw_fields s f
  if not t.refreshed then pure (error_system, f) else elim t.key [
    | none ↦ pure (error_system, f)
    | some k ↦
        if is_submit (action_of k) && ltb 0 f.username_pos
        then pure (success, finish f)
        else enter_fields s user_len pass_len ts (edit user_len pass_len (action_of k) f)
  ]

-- The arrays are cleared before the loop.
abbrev pub cleared_fields : ℕ → ℕ → Fields
cleared_fields user_len pass_len = record {
  field = username_field;
  username = zeros user_len;
  username_pos = 0;
  password = zeros pass_len;
  password_pos = 0;
}

-- A null pointer is `none`. The checks, then the loop from cleared arrays.
unfoldable pub tui_get_credentials :
    Screen
    → List Turn
    → Option Bytes
    → ℕ
    → Option Bytes
    → ℕ
    → Eff (Code × Option Bytes × Option Bytes)
unfolding enter_fields
tui_get_credentials s turns (some u) user_len (some p) pass_len =
    if user_len == 0 || pass_len == 0
    then pure (error_system, some u, some p)
    else if not s.started
    then pure (error_system, some u, some p)
    else if too_small s 10 50
    then pure (error_system, some u, some p)
    else do
      (code, f) ← enter_fields s user_len pass_len turns (cleared_fields user_len pass_len)
      pure (code, some f.username, some f.password)
tui_get_credentials s turns u user_len p pass_len = pure (error_system, u, p)
