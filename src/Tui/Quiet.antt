-- ===== src/Tui/Quiet.antt =====
-- The calls of src/tui.c are those of ncurses.
use kia.Base.{
  ℕ, ◌+◌, refl, Bool, List, [], ◌∷◌, Option, none, some, ◌==◌, take, arith, Bool-cases,
  Option-cases, inl, inr, ℤ, ◌⊎◌,
}
use kia.Text.{Bytes}
use kia.Effect.{Eff, pure}
use kia.Effect.Quiet.{IsQuiet, IsQuiet-append}
use kia.Session.{SessionInfo}
use kia.Session.Discover.{SessionList, entries}
use kia.Tui.{Screen, Turn}
use kia.Tui.Drawing.{
  tui_init, tui_draw_login_screen, draw_login, draw_line, show_text, draw_message,
}
use kia.Tui.Credentials.{
  Fields, draw_fields, enter_fields, edit, action_of, tui_get_credentials, cleared_fields,
}
use kia.Tui.Menu.{
  draw_entry, draw_entries, draw_menu, menu_loop, menu_step, move_of, select_from,
  tui_select_session, first_selected, start_row,
}

pub tui_init-IsQuiet : (starts colors : Bool) → IsQuiet (tui_init starts colors).1
unfolding tui_init
tui_init-IsQuiet starts colors = ground arith

pub tui_draw_login_screen-IsQuiet :
    (s : Screen) (hostname version : Option Bytes)
    → IsQuiet (tui_draw_login_screen s hostname version).1
unfolding tui_draw_login_screen draw_login draw_line
tui_draw_login_screen-IsQuiet s hostname version = ground arith

pub show_text-IsQuiet :
    (pair delay : ℕ) (s : Screen) (m : Option Bytes) → IsQuiet (show_text pair delay s m).1
unfolding show_text draw_message
show_text-IsQuiet pair delay s none = refl
show_text-IsQuiet pair delay s (some m) = ground arith

draw_fields-IsQuiet : (s : Screen) (f : Fields) → IsQuiet (draw_fields s f).1
unfolding draw_fields
draw_fields-IsQuiet s f = ground arith

draw_entry-IsQuiet :
    (s : Screen) (row : ℕ) (b : Bool) (e : SessionInfo) → IsQuiet (draw_entry s row b e).1
unfolding draw_entry
draw_entry-IsQuiet s row b e = ground arith

draw_entries-IsQuiet :
    (s : Screen) (first selected i : ℕ) (l : List SessionInfo)
    → IsQuiet (draw_entries s first selected i l).1
unfolding draw_entries
draw_entries-IsQuiet s first selected i [] = refl
draw_entries-IsQuiet s first selected i (e ∷ l) =
    let entry = draw_entry s (first + i) (i == selected) e in
    let shown =
      IsQuiet-append entry.1 (draw_entries s first selected (i + 1) l).1
        (draw_entry-IsQuiet s (first + i) (i == selected) e)
        (draw_entries-IsQuiet s first selected (i + 1) l) in
    ground (arith, shown)

draw_menu-IsQuiet :
    (s : Screen) (l : SessionList) (selected : ℕ) → IsQuiet (draw_menu s l selected).1
unfolding draw_menu
draw_menu-IsQuiet s l selected =
    let first = start_row s l.count in
    IsQuiet-append (draw_entries s first selected 0 (take l.count (entries l))).1 _
      (draw_entries-IsQuiet s first selected 0 (take l.count (entries l))) (ground arith)

module _ (s : Screen) (user_len pass_len : ℕ) where
  enter_fields-IsQuiet :
      (ts : List Turn) (f : Fields) → IsQuiet (enter_fields s user_len pass_len ts f).1
  unfolding enter_fields
  enter_fields-IsQuiet [] f = IsQuiet-append (draw_fields s f).1 [] (draw_fields-IsQuiet s f) refl
  enter_fields-IsQuiet (t ∷ ts) f =
      IsQuiet-append (draw_fields s f).1 _ (draw_fields-IsQuiet s f)
        (elim (Bool-cases t.refreshed) [
          | inr broken ↦ rw broken refl
          | inl drawn ↦ elim (Option-cases t.key) [
            | inl ended ↦ rw (drawn, ended) refl
            | inr (k, pressed) ↦
                let go = enter_fields-IsQuiet ts (edit user_len pass_len (action_of k) f) in
                rw (drawn, pressed) (ground (arith, go))
          ]
        ])

pub tui_get_credentials-IsQuiet :
    (s : Screen) (ts : List Turn) (u : Option Bytes) (user_len : ℕ) (p : Option Bytes)
    (pass_len : ℕ)
    → IsQuiet (tui_get_credentials s ts u user_len p pass_len).1
unfolding tui_get_credentials
tui_get_credentials-IsQuiet s ts none user_len p pass_len = refl
tui_get_credentials-IsQuiet s ts (some u) user_len none pass_len = refl
tui_get_credentials-IsQuiet s ts (some u) user_len (some p) pass_len =
    let entered = enter_fields s user_len pass_len ts (cleared_fields user_len pass_len) in
    let go =
      IsQuiet-append entered.1 []
        (enter_fields-IsQuiet s user_len pass_len ts (cleared_fields user_len pass_len)) refl in
    ground (arith, go)

menu_next-IsQuiet :
    (go : ℕ → Eff ℤ) (r : ℤ ⊎ ℕ)
    → ((i : ℕ) → IsQuiet (go i).1)
    → IsQuiet (elim r as (λ x. Eff ℤ) [ inl result ↦ pure result | inr i ↦ go i ]).1
menu_next-IsQuiet go (inl result) h = refl
menu_next-IsQuiet go (inr i) h = h i

module _ (s : Screen) (l : SessionList) where
  menu_loop-IsQuiet : (ts : List Turn) (selected : ℕ) → IsQuiet (menu_loop s l ts selected).1
  unfolding menu_loop
  menu_loop-IsQuiet [] selected =
      IsQuiet-append (draw_menu s l selected).1 [] (draw_menu-IsQuiet s l selected) refl
  menu_loop-IsQuiet (t ∷ ts) selected = elim (Bool-cases t.cleared) [
    | inr broken ↦ rw broken refl
    | inl cleared ↦ rw cleared (
        IsQuiet-append (draw_menu s l selected).1 _ (draw_menu-IsQuiet s l selected)
          (elim (Bool-cases t.refreshed) [
            | inr lost ↦ rw lost refl
            | inl drawn ↦ elim (Option-cases t.key) [
              | inl ended ↦ rw (drawn, ended) refl
              | inr (k, pressed) ↦
                  rw (drawn, pressed)
                    (menu_next-IsQuiet (menu_loop s l ts) (menu_step l.count (move_of k) selected)
                      (menu_loop-IsQuiet ts))
            ]
          ]))
  ]

pub tui_select_session-IsQuiet :
    (s : Screen) (ts : List Turn) (l : SessionList) (default_idx : ℤ)
    → IsQuiet (tui_select_session s ts (some l) default_idx).1
unfolding tui_select_session select_from
tui_select_session-IsQuiet s ts l default_idx =
    let go = menu_loop-IsQuiet s l ts (first_selected l.count default_idx) in ground (arith, go)
