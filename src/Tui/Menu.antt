-- ===== src/Tui/Menu.antt =====
-- `tui_select_session` of src/tui.c: the menu of the sessions, and what is drawn of it.
pub mod Choice
pub mod Rows
use kia.Base.{
  ℕ, ◌+◌, ◌-◌, ◌/◌, Bool, true, false, not, ◌&&◌, ◌||◌, List, [], ◌∷◌, ◌++◌, Option, none, some,
  ltb, leb, ◌==◌, if◌then◌else◌, length, take, inl, inr, ℤ, pos, negsuc, ◌⊎◌,
}
use kia.Text.{Bytes, codes, cstr, is_empty}
use kia.Effect.{Eff, clear, refresh, pure, call, ◌>>=◌, ◌>>◌}
use kia.Session.{SessionType, session_x11, session_wayland, SessionInfo}
use kia.Session.Discover.{SessionList, entries}
use kia.Tui.{
  Key, char, key_enter, key_down, key_up, key_backspace, other_key, Turn, Screen, too_small,
  pad_right, centred, draw, print, print_in,
}
use kia.Tui.Drawing.{color_highlight}

-- The cases of the `switch`.
pub data Move : Type 0 where
  take_it go_up go_down leave stay : Move

unfoldable pub move_of : Key → Move
move_of key_enter = take_it
move_of key_up = go_up
move_of key_down = go_down
move_of key_backspace = stay
move_of other_key = stay
move_of (char c) = if c == b'\n' then take_it else if c == 27 then leave else stay

abbrev pub no_choice : ℤ
no_choice = negsuc 0

-- One round of the loop behind `getch`: the index that is returned, or the one to go on with.
unfoldable pub menu_step : ℕ → Move → ℕ → ℤ ⊎ ℕ
menu_step count take_it selected = inl (if ltb selected count then pos selected else no_choice)
menu_step count go_up selected = inr (if ltb 0 selected then selected - 1 else selected)
menu_step count go_down selected = inr (if ltb (selected + 1) count then selected + 1 else selected)
menu_step count leave selected = inl no_choice
menu_step count stay selected = inr selected

-- Two rows below the top if the list does not fit below a third of the screen.
unfoldable pub start_row : Screen → ℕ → ℕ
start_row s count = if ltb s.max_y (s.max_y / 3 + count + 4) then 2 else s.max_y / 3

abbrev pub type_string : SessionType → Bytes
type_string session_x11 = codes "[X11]"
type_string session_wayland = codes "[Wayland]"

-- One entry of the list, in its row.
unfoldable pub draw_entry : Screen → ℕ → Bool → SessionInfo → Eff (Unit {0})
draw_entry s row is_selected e =
    let name = pad_right 38 (cstr e.name) in
    if is_empty (cstr e.name) then pure tt else do
      (if is_selected
          then print_in s color_highlight row (s.max_x / 2 - 20) (codes "> " ++ name)
          else print row (s.max_x / 2 - 20) (codes "  " ++ name))
      (if ltb (s.max_x / 2 + 20) (s.max_x - 10)
          then print row (s.max_x / 2 + 20) (type_string e.type)
          else pure tt)

-- The loop over the entries from index i on; `first` is `start_row`.
unfoldable pub draw_entries : Screen → ℕ → ℕ → ℕ → List SessionInfo → Eff (Unit {0})
unfolding draw_entry
draw_entries s first selected i [] = pure tt
draw_entries s first selected i (e ∷ l) =
    let rest = draw_entries s first selected (i + 1) l in
    if leb (s.max_y - 3) (first + i)
    then pure tt
    else (do draw_entry s (first + i) (i == selected) e; rest)

abbrev pub instruction : Bytes
instruction = codes "Use arrow keys to navigate, Enter to select"

-- The part of the loop that draws, behind `clear`.
unfoldable pub draw_menu : Screen → SessionList → ℕ → Eff (Unit {0})
unfolding draw_entries start_row
draw_menu s l selected = do
  let first = start_row s l.count
  print (first - 2) (centred s (length (codes "Select Session"))) (codes "Select Session")
  draw_entries s first selected 0 (take l.count (entries l))
  (if ltb (first + l.count + 2) s.max_y
      then print (first + l.count + 2) (centred s (length instruction)) instruction
      else pure tt)
  draw refresh

-- The loop. When the list of turns ends, so does the input, and `getch` returns ERR.
unfoldable pub menu_loop : Screen → SessionList → List Turn → ℕ → Eff ℤ
unfolding draw_menu
menu_loop s l [] selected = do draw clear; draw_menu s l selected; pure no_choice
menu_loop s l (t ∷ ts) selected = do
  draw clear
  if not t.cleared then pure no_choice else (do
    draw_menu s l selected
    if not t.refreshed then pure no_choice else elim t.key [
      | none ↦ pure no_choice
      | some k ↦ elim (menu_step l.count (move_of k) selected) [
        | inl result ↦ pure result
        | inr selected' ↦ menu_loop s l ts selected'
      ]
    ])

-- `default_idx` as the code takes it: an index of the list, or 0.
unfoldable pub first_selected : ℕ → ℤ → ℕ
first_selected count (pos i) = if ltb i count then i else 0
first_selected count (negsuc i) = 0

unfoldable pub select_from : Screen → List Turn → SessionList → ℤ → Eff ℤ
unfolding menu_loop first_selected
select_from s turns l default_idx = if l.count == 0 then pure no_choice else elim l.sessions [
  | none ↦ pure no_choice
  | some _ ↦
      if not s.started
      then pure no_choice
      else if too_small s 10 60
      then pure no_choice
      else menu_loop s l turns (first_selected l.count default_idx)
]

-- A null list is `none`.
unfoldable pub tui_select_session : Screen → List Turn → Option SessionList → ℤ → Eff ℤ
unfolding select_from
tui_select_session s turns none default_idx = pure no_choice
tui_select_session s turns (some l) default_idx = select_from s turns l default_idx
