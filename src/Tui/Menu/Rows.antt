-- ===== src/Tui/Menu/Rows.antt =====
-- Which entry the menu of src/tui.c marks.
use kia.Base.{
  ℕ, ◌+◌, ◌-◌, ◌≤◌, ◌<◌, ◌≡◌, refl, Bool, true, false, ◌&&◌, List, [], ◌∷◌, ◌++◌, some, length, ltb,
  leb, ◌==◌, if◌then◌else◌, arith, Bool-cases, inl, inr, take, All, All-take, length-take,
}
use kia.Text.{Bytes, cstr, is_empty}
use kia.Effect.{Effect, screen, mvprintw, refresh, pure, ◌>>◌}
use kia.Session.{SessionInfo}
use kia.Session.Discover.{SessionList}
use kia.Tui.{Screen, centred, draw, print}
use kia.Tui.Menu.{start_row, draw_entry, draw_entries, draw_menu, instruction}

abbrev is_mark : Bytes → Bool
is_mark [] = false
is_mark (c ∷ cs) = c == b'>'

-- The rows of the texts that begin with the mark.
unfoldable pub marks : List Effect → List ℕ
marks [] = []
marks (screen (mvprintw row col text) ∷ es) = if is_mark text then row ∷ marks es else marks es
marks (_ ∷ es) = marks es

marks-append : (es fs : List Effect) → marks (es ++ fs) ≡ marks es ++ marks fs
unfolding marks
marks-append [] fs = refl
marks-append (screen (mvprintw row col text) ∷ es) fs = ground (arith, marks-append es fs)
marks-append (e ∷ es) fs = marks-append es fs

abbrev pub IsNamed : SessionInfo → Type 0
IsNamed e = is_empty (cstr e.name) ≡ false

marks-draw_entry :
    (s : Screen) (row : ℕ) (b : Bool) (e : SessionInfo)
    → IsNamed e
    → marks (draw_entry s row b e).1 ≡ (if b then row ∷ [] else [])
unfolding draw_entry marks
marks-draw_entry s row b e named = ground arith

-- Of the entries from k on, the one that is selected, if its row is above the last three.
marks-draw_entries :
    (s : Screen) (first i k : ℕ) (l : List SessionInfo)
    → All IsNamed l
    → marks (draw_entries s first i k l).1 ≡ (
        if leb k i && ltb i (k + length l) && ltb (first + i) (s.max_y - 3)
        then (first + i) ∷ []
        else [])
unfolding draw_entries marks
marks-draw_entries s first i k [] h = ground arith
marks-draw_entries s first i k (e ∷ l) h = elim (Bool-cases (leb (s.max_y - 3) (first + k))) [
  | inl below ↦ rw below (ground arith)
  | inr shown ↦
      rw
        (
          shown,
          marks-append (draw_entry s (first + k) (k == i) e).1 (draw_entries s first i (k + 1) l).1,
          marks-draw_entry s (first + k) (k == i) e h.0,
          marks-draw_entries s first i (k + 1) l h.1,
        )
        (ground arith)
]

unmarked :
    (b : Bool) (row col : ℕ)
    → marks ((if b then print row col instruction else pure tt) >> draw refresh).1 ≡ []
unfolding marks
unmarked true row col = refl
unmarked false row col = refl

-- On a list whose entries all have a name, with as many entries as it counts, the menu prints a
-- mark in one row for each selected entry whose row is above the last three rows of the screen,
-- and in none for another: the menu does not scroll, and such a selection cannot be seen.
pub marks-draw_menu :
    (s : Screen) (l : SessionList) (array : List SessionInfo) (selected : ℕ)
    → l.sessions ≡ some array
    → l.count ≤ length array
    → All IsNamed array
    → selected < l.count
    → let row = start_row s l.count + selected in
      marks (draw_menu s l selected).1 ≡ (if ltb row (s.max_y - 3) then row ∷ [] else [])
unfolding draw_menu marks
marks-draw_menu s l array selected given whole named within =
    let first = start_row s l.count in
    let last = first + l.count + 2 in
    let all : l.count ≤ length (take l.count array) = omega (arith, length-take l.count array) in
    rw
      (
        given,
        marks-append (draw_entries s first selected 0 (take l.count array)).1 _,
        unmarked (ltb last s.max_y) last (centred s (length instruction)),
        marks-draw_entries s first selected 0 (take l.count array)
            (All-take IsNamed l.count array named),
      )
      (ground (arith, all))
