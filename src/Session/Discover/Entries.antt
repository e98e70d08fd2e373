-- ===== src/Session/Discover/Entries.antt =====
-- Every entry that src/session.c counts is a session that can be shown and started.
use native.Mathlib.Numerals.{add-one}
use kia.Base.{
  ℕ, ◌+◌, ◌<◌, ◌≡◌, refl, List, [], ◌∷◌, ◌++◌, Option, none, some, ◌==◌, length, arith, All,
  Bool-cases, Option-cases, inl, inr,
}
use kia.Code.{Code, success, succeeded}
use kia.Effect.{Eff}
use kia.Text.{Bytes}
use kia.Session.{SessionType, session_x11, session_wayland, SessionInfo}
use kia.Session.Desktop.Fields.{IsSession, IsSlot, IsParsed, parse_desktop_file-IsParsed}
use kia.Session.Discover.{
  SessionList, Files, entries, resize, add_parsed, add_file, scan_names, close_directory,
  scan_opened, scan_session_directory, session_list_free, finish_discover, free_sessions,
  scan_wayland, no_sessions, session_discover, x11_session_dir, wayland_session_dir, or_free,
}
use kia.Session.Discover.Slots.{
  IsGood, First, IsScanned, First-resize, First-set, First-set_more, All-resize, All-set,
  All-get_or, length-resize,
}

IsGood-of_parsed : {type : SessionType} {s : SessionInfo} → IsSession type s → IsGood s
IsGood-of_parsed h = record {
  name_filled = h.name_filled;
  exec_filled = h.exec_filled;
  typed = refl;
}

add_parsed-IsScanned :
    (array : List SessionInfo) (count : ℕ) (type : SessionType) (r : Code × SessionInfo)
    → First IsGood count array
    → All IsSlot array
    → count < length array
    → IsParsed type r
    → IsScanned (add_parsed array count r).0
unfolding add_parsed
add_parsed-IsScanned array count type (code, s) h a lt (good, slot) =
    elim (Bool-cases (succeeded code)) [
      | inl ok ↦
          rw (ok, add-one)
            (record {
              sound =
                  First-set_more IsGood count array s h lt (IsGood-of_parsed (good (ground arith)));
              slots = All-set IsSlot count array s slot a;
            })
      | inr refused ↦ rw refused (record {
        sound = First-set IsGood count array s h;
        slots = All-set IsSlot count array s slot a;
      })
    ]

add_file-IsScanned :
    (files : Files) (path : Bytes) (type : SessionType) (l : SessionList)
    → IsSlot files.fresh
    → IsScanned l
    → IsScanned (add_file files path type l).0
unfolding add_file
add_file-IsScanned files path type l f h =
    let array = resize (l.count + 1) files.fresh (entries l) in
    let slots = All-resize IsSlot (l.count + 1) files.fresh (entries l) f h.slots in
    add_parsed-IsScanned array l.count type _
      (First-resize IsGood l.count (l.count + 1) files.fresh (entries l) (omega arith) h.sound)
      slots (omega (arith, length-resize (l.count + 1) files.fresh (entries l)))
      (parse_desktop_file-IsParsed files.fopen path _ type
        (All-get_or IsSlot l.count files.fresh array f slots))

scan_names-IsScanned :
    (files : Files) (dir : Bytes) (type : SessionType) (names : List Bytes) (l : SessionList)
    → IsSlot files.fresh
    → IsScanned l
    → IsScanned (scan_names files dir type names l).0.1
unfolding scan_names
scan_names-IsScanned files dir type [] l f h = h
scan_names-IsScanned files dir type (name ∷ names) l f h = ground (
  arith,
  scan_names-IsScanned files dir type names l f h,
  scan_names-IsScanned files dir type names (add_file files (dir ++ b'/' ∷ name) type l).0 f
      (add_file-IsScanned files (dir ++ b'/' ∷ name) type l f h),
)

scan_session_directory-IsScanned :
    (files : Files) (dir : Bytes) (type : SessionType) (l : SessionList)
    → IsSlot files.fresh
    → IsScanned l
    → IsScanned (scan_session_directory files dir type l).0.1
unfolding scan_session_directory scan_opened close_directory
scan_session_directory-IsScanned files dir type l f h = elim (Option-cases (files.opendir dir)) [
  | inl missing ↦ rw (missing, scan_opened) h
  | inr (d, opened) ↦
      let scanned = scan_names-IsScanned files dir type d.names l f h in
      rw (opened, scan_opened) (ground arith)
]

-- The list before the first scan.
no_sessions-IsScanned : IsScanned no_sessions
no_sessions-IsScanned = record { sound = tt; slots = tt }

free-IsScanned :
    (o : Option (List SessionInfo)) (l : SessionList) → IsScanned l → IsScanned (free_sessions o l)
unfolding free_sessions
free-IsScanned none l h = h
free-IsScanned (some a) l h = no_sessions-IsScanned

-- What a discovery gives back: sound sessions only, and at least one of them with a success.
abbrev pub IsDiscovered : Code × SessionList → Type 0
IsDiscovered r = IsScanned r.1 × (r.0 ≡ success → 0 < r.1.count)

or_free-IsDiscovered :
    (r : Code × SessionList) (next : SessionList → Eff (Code × SessionList))
    → IsScanned r.1
    → ((l : SessionList) → IsScanned l → IsDiscovered (next l).0)
    → IsDiscovered (or_free r next).0
unfolding session_list_free
or_free-IsDiscovered (code, l) next h keeps = elim (Bool-cases (succeeded code)) [
  | inl ok ↦ rw ok (keeps l h)
  | inr failed ↦ rw failed (free-IsScanned l.sessions l h, λ e. cc)
]

finish_discover-IsDiscovered : (l : SessionList) → IsScanned l → IsDiscovered (finish_discover l).0
unfolding finish_discover
finish_discover-IsDiscovered l h = elim (Bool-cases (l.count == 0)) [
  | inl nothing ↦ rw nothing (h, λ e. cc)
  | inr some_found ↦ rw some_found (h, λ e. ground arith)
]

scan_wayland-IsDiscovered :
    (files : Files)
    → IsSlot files.fresh
    → (l : SessionList) → IsScanned l
    → IsDiscovered (scan_wayland files l).0
unfolding scan_wayland
scan_wayland-IsDiscovered files f l h =
    or_free-IsDiscovered (scan_session_directory files wayland_session_dir session_wayland l).0
      finish_discover
      (scan_session_directory-IsScanned files wayland_session_dir session_wayland l f h)
      finish_discover-IsDiscovered

-- Whatever the directories and the files hold, every session that `session_discover` counts has a
-- name and a command that are terminated and not empty, and a success means at least one. The room
-- that `realloc` gives holds arrays of the declared sizes.
pub session_discover-IsDiscovered :
    (files : Files) → IsSlot files.fresh → IsDiscovered (session_discover files).0
session_discover-IsDiscovered files f = unfold_discover (
    or_free-IsDiscovered (scan_session_directory files x11_session_dir session_x11 no_sessions).0
      (scan_wayland files)
      (scan_session_directory-IsScanned files x11_session_dir session_x11 no_sessions f
        no_sessions-IsScanned)
      (scan_wayland-IsDiscovered files f))
  where
    unfold_discover :
        IsDiscovered
          (or_free
            (scan_session_directory files x11_session_dir session_x11 no_sessions).0
            (scan_wayland files)).0
        → IsDiscovered (session_discover files).0
    unfold_discover h = unfold session_discover in h
