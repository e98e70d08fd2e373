-- ===== src/Tui/Menu/Choice.antt =====
-- What the menu of src/tui.c returns.
use kia.Base.{
  ℕ, zero, suc, ◌+◌, ◌<◌, ◌≡◌, refl, ap, ◌∙◌, true, false, List, [], ◌∷◌, ◌++◌, some, ltb, ◌==◌,
  arith, Bool-cases, Option-cases, inl, inr, ℤ, pos, negsuc, ◌⊎◌,
}
use kia.Effect.{Eff, pure}
use kia.Session.{SessionInfo}
use kia.Session.Discover.{SessionList}
use kia.Tui.{Key, key_enter, key_down, Turn, Screen, too_small}
use kia.Tui.Menu.{
  Move, take_it, go_up, go_down, leave, stay, move_of, menu_step, menu_loop, first_selected,
  tui_select_session,
}

-- -1, or an index of the list.
pub data IsChoice (count : ℕ) : ℤ → Type 0 where
  nothing : IsChoice count (negsuc 0)
  index : (i : ℕ) → i < count → IsChoice count (pos i)

StepsIn : ℕ → ℤ ⊎ ℕ → Type 0
StepsIn count (inl result) = IsChoice count result
StepsIn count (inr selected) = selected < count

menu_step-StepsIn :
    (count : ℕ) (m : Move) (selected : ℕ)
    → selected < count
    → StepsIn count (menu_step count m selected)
unfolding menu_step StepsIn
menu_step-StepsIn count take_it selected h =
    let inside : ltb selected count ≡ true = ground arith in rw inside (index selected h)
menu_step-StepsIn count go_up selected h = ground arith
menu_step-StepsIn count go_down selected h = ground arith
menu_step-StepsIn count leave selected h = nothing
menu_step-StepsIn count stay selected h = h

next-IsChoice :
    (count : ℕ) (go : ℕ → Eff ℤ)
    → ((selected : ℕ) → selected < count → IsChoice count (go selected).0)
    → (r : ℤ ⊎ ℕ) → StepsIn count r
    → IsChoice count
        (elim r as (λ x. Eff ℤ) [ inl result ↦ pure result | inr selected' ↦ go selected' ]).0
unfolding StepsIn
next-IsChoice count go ih (inl result) s = s
next-IsChoice count go ih (inr selected') s = ih selected' s

menu_loop-IsChoice :
    (screen : Screen) (l : SessionList) (ts : List Turn) (selected : ℕ)
    → selected < l.count
    → IsChoice l.count (menu_loop screen l ts selected).0
unfolding menu_loop
menu_loop-IsChoice screen l [] selected h = nothing
menu_loop-IsChoice screen l (t ∷ ts) selected h = elim (Bool-cases t.cleared) [
  | inr broken ↦ rw broken nothing
  | inl cleared ↦ elim (Bool-cases t.refreshed) [
    | inr lost ↦ rw (cleared, lost) nothing
    | inl drawn ↦ elim (Option-cases t.key) [
      | inl ended ↦ rw (cleared, drawn, ended) nothing
      | inr (k, pressed) ↦
          rw (cleared, drawn, pressed)
            (next-IsChoice l.count (menu_loop screen l ts) (menu_loop-IsChoice screen l ts)
              (menu_step l.count (move_of k) selected)
              (menu_step-StepsIn l.count (move_of k) selected h))
    ]
  ]
]

first_selected-lt : (count : ℕ) (i : ℤ) → 0 < count → first_selected count i < count
unfolding first_selected
first_selected-lt count (pos i) h = ground arith
first_selected-lt count (negsuc i) h = h

-- Whatever the screen, the keys, the list and the default are, the menu returns -1 or an index
-- of the list.
pub tui_select_session-IsChoice :
    (screen : Screen) (ts : List Turn) (l : SessionList) (default_idx : ℤ)
    → IsChoice l.count (tui_select_session screen ts (some l) default_idx).0
unfolding tui_select_session
tui_select_session-IsChoice screen ts l default_idx = elim (Bool-cases (l.count == 0)) [
  | inl empty ↦ rw empty nothing
  | inr filled ↦ elim (Option-cases l.sessions) [
    | inl missing ↦ rw (filled, missing) nothing
    | inr (array, given) ↦ elim (Bool-cases screen.started) [
      | inr off ↦ rw (filled, given, off) nothing
      | inl on ↦ elim (Bool-cases (too_small screen 10 60)) [
        | inl small ↦ rw (filled, given, on, small) nothing
        | inr large ↦
            rw (filled, given, on, large)
              (menu_loop-IsChoice screen l ts _
                (first_selected-lt l.count default_idx (ground arith)))
      ]
    ]
  ]
]

-- Rounds that draw and read a key.
abbrev pub press : Key → Turn
press k = record { cleared = true; refreshed = true; key = some k }

abbrev pub presses : ℕ → Key → List Turn
presses zero k = []
presses (suc n) k = press k ∷ presses n k

menu_loop-presses :
    (screen : Screen) (l : SessionList) (n selected : ℕ) (ts : List Turn)
    → selected + n < l.count
    → (menu_loop screen l (presses n key_down ++ ts) selected).0
      ≡ (menu_loop screen l ts (selected + n)).0
unfolding menu_loop menu_step move_of
menu_loop-presses screen l zero selected ts h = ap (λ i. (menu_loop screen l ts i).0) (omega arith)
menu_loop-presses screen l (suc n) selected ts h =
    let below : ltb (selected + 1) l.count ≡ true = ground arith in
    rw below (
      menu_loop-presses screen l n (selected + 1) ts (omega arith)
      ∙ ap (λ i. (menu_loop screen l ts i).0) (omega arith))

menu_loop-enter :
    (screen : Screen) (l : SessionList) (n : ℕ) (ts : List Turn)
    → n < l.count
    → (menu_loop screen l (press key_enter ∷ ts) n).0 ≡ pos n
unfolding menu_loop menu_step move_of
menu_loop-enter screen l n ts h = let inside : ltb n l.count ≡ true = ground arith in rw inside refl

-- Every entry of the list can be chosen from the first one: with a screen that has started and is
-- large enough and a list that is not null, n presses of the down key and Enter return n for every
-- n below the count, whether or not the entry was drawn.
pub tui_select_session-presses :
    (screen : Screen) (l : SessionList) (array : List SessionInfo) (n : ℕ) (ts : List Turn)
    → screen.started ≡ true
    → too_small screen 10 60 ≡ false
    → l.sessions ≡ some array
    → n < l.count
    → (tui_select_session screen (presses n key_down ++ press key_enter ∷ ts) (some l) (pos 0)).0
      ≡ pos n
unfolding tui_select_session first_selected
tui_select_session-presses screen l array n ts on large given h =
    let filled : (l.count == 0) ≡ false = ground arith in
    let start : ltb 0 l.count ≡ true = ground arith in
    rw (filled, given, on, large, start)
      (menu_loop-presses screen l n 0 (press key_enter ∷ ts) (omega arith)
        ∙ menu_loop-enter screen l (0 + n) ts (omega arith)
        ∙ ap pos (omega arith))
