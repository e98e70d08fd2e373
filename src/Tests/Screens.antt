-- ===== src/Tests/Screens.antt =====
-- src/tui.c on concrete keys.
use kia.Base.{◌≡◌, ◌++◌, refl, true, List, [], ◌∷◌, some, pos, negsuc, arith}
use kia.Code.{Code, success}
use kia.Text.{Bytes, codes, zeros, pad}
use kia.Config.{name_size}
use kia.Session.{session_x11, SessionInfo, exec_size}
use kia.Session.Discover.{SessionList}
use kia.Tui.{char, key_enter, key_down, Turn, Screen}
use kia.Tui.Credentials.{tui_get_credentials, action_of}
use kia.Tui.Credentials.Texts.{enter_texts, no_texts}
use kia.Tui.Credentials.Refinement.{tui_get_credentials-enter_texts}
use kia.Tui.Credentials.Typed.{HoldsTyped, tui_get_credentials-HoldsTyped}
use kia.Tui.Menu.{tui_select_session}
use kia.Tui.Menu.Choice.{
  IsChoice, press, presses, tui_select_session-IsChoice, tui_select_session-presses,
}

abbrev pub screen : Screen
screen = record { started = true; max_y = 24; max_x = 80; colors = true }

abbrev type_keys : Bytes → List Turn
type_keys [] = []
type_keys (c ∷ cs) = press (char c) ∷ type_keys cs

-- "ab", the tab key, "c", Enter.
abbrev pub typing : List Turn
typing = type_keys (codes "ab") ++ press (char b'\t') ∷ press (char b'c') ∷ press key_enter ∷ []

typed : (enter_texts 256 256 typing no_texts).0 ≡ success
unfolding action_of
typed = refl

tui_get_credentials-enter_texts_example :
    let (code, e) = enter_texts 256 256 typing no_texts in
    (tui_get_credentials screen typing (some (zeros 256)) 256 (some (zeros 256)) 256).0
    ≡ (code, some (pad 256 e.user), some (pad 256 e.secret))
tui_get_credentials-enter_texts_example =
    tui_get_credentials-enter_texts screen typing (zeros 256) (zeros 256) 256 256 (omega arith)
      (omega arith) refl refl

abbrev entry : SessionInfo
entry = record { name = zeros name_size; exec = zeros exec_size; type = session_x11 }

abbrev two : SessionList
two = record { sessions = some (entry ∷ entry ∷ []); count = 2 }

tui_select_session-IsChoice_example :
    IsChoice 2
      (tui_select_session screen (press key_down ∷ press key_enter ∷ []) (some two) (negsuc 0)).0
tui_select_session-IsChoice_example =
    tui_select_session-IsChoice screen (press key_down ∷ press key_enter ∷ []) two (negsuc 0)

tui_select_session-presses_example :
    (tui_select_session screen (presses 1 key_down ++ press key_enter ∷ []) (some two) (pos 0)).0
    ≡ pos 1
tui_select_session-presses_example =
    tui_select_session-presses screen two (entry ∷ entry ∷ []) 1 [] refl refl refl (omega arith)

tui_get_credentials-HoldsTyped_example :
    (code : Code) × (u' p' : Bytes) × ((tui_get_credentials screen typing
        (some (zeros 256))
        256
        (some (zeros 256))
        256).0
      ≡ (code, some u', some p'))
    × HoldsTyped u'
    × HoldsTyped p'
tui_get_credentials-HoldsTyped_example =
    tui_get_credentials-HoldsTyped screen typing (zeros 256) (zeros 256) 256 256 (omega arith)
      (omega arith) refl refl
