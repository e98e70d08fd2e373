-- ===== src/Session/Discover/Quiet.antt =====
-- The calls of `session_discover` of src/session.c.
use kia.Base.{
  ℕ, ◌+◌, refl, Bool, List, [], ◌∷◌, ◌++◌, Option, none, some, get_or, arith, Bool-cases, inl, inr,
}
use kia.Code.{Code, succeeded}
use kia.Text.{Bytes}
use kia.Effect.{Eff}
use kia.Effect.Quiet.{IsQuiet, IsQuiet-append}
use kia.Session.{SessionType, SessionInfo, session_x11, session_wayland}
use kia.Session.Desktop.{parse_desktop_file}
use kia.Session.Desktop.Quiet.{parse_desktop_file-IsQuiet}
use kia.Session.Discover.{
  SessionList, Directory, Files, add_parsed, add_file, resize, entries, scan_names, close_directory,
  scan_opened, scan_session_directory, finish_discover, or_free, scan_wayland, session_discover,
  x11_session_dir, wayland_session_dir, no_sessions,
}

add_parsed-IsQuiet :
    (array : List SessionInfo) (count : ℕ) (r : Code × SessionInfo)
    → IsQuiet (add_parsed array count r).1
unfolding add_parsed
add_parsed-IsQuiet array count r = ground arith

add_file-IsQuiet :
    (files : Files) (path : Bytes) (type : SessionType) (l : SessionList)
    → IsQuiet (add_file files path type l).1
unfolding add_file
add_file-IsQuiet files path type l =
    let array = resize (l.count + 1) files.fresh (entries l) in
    let parsed = parse_desktop_file files.fopen path (get_or array l.count files.fresh) type in
    IsQuiet-append parsed.1 (add_parsed array l.count parsed.0).1
      (parse_desktop_file-IsQuiet files.fopen path (get_or array l.count files.fresh) type)
      (add_parsed-IsQuiet array l.count parsed.0)

scan_names-IsQuiet :
    (files : Files) (dir : Bytes) (type : SessionType) (names : List Bytes) (l : SessionList)
    → IsQuiet (scan_names files dir type names l).1
unfolding scan_names
scan_names-IsQuiet files dir type [] l = refl
scan_names-IsQuiet files dir type (name ∷ names) l =
    let path = dir ++ b'/' ∷ name in
    let added = add_file files path type l in
    let skip = scan_names-IsQuiet files dir type names l in
    let go =
      IsQuiet-append added.1 (scan_names files dir type names added.0).1
        (add_file-IsQuiet files path type l) (scan_names-IsQuiet files dir type names added.0) in
    ground (arith, skip, go)

close_directory-IsQuiet : (d : Directory) (r : Bool × SessionList) → IsQuiet (close_directory d r).1
unfolding close_directory
close_directory-IsQuiet d r = ground arith

scan_opened-IsQuiet :
    (files : Files) (dir : Bytes) (type : SessionType) (d : Option Directory) (l : SessionList)
    → IsQuiet (scan_opened files dir type d l).1
unfolding scan_opened
scan_opened-IsQuiet files dir type none l = refl
scan_opened-IsQuiet files dir type (some d) l =
    let scanned = scan_names files dir type d.names l in
    IsQuiet-append scanned.1 (close_directory d scanned.0).1
      (scan_names-IsQuiet files dir type d.names l) (close_directory-IsQuiet d scanned.0)

finish_discover-IsQuiet : (l : SessionList) → IsQuiet (finish_discover l).1
unfolding finish_discover
finish_discover-IsQuiet l = ground arith

or_free-IsQuiet :
    (r : Code × SessionList) (next : SessionList → Eff (Code × SessionList))
    → ((l : SessionList) → IsQuiet (next l).1)
    → IsQuiet (or_free r next).1
or_free-IsQuiet (code, l) next h = elim (Bool-cases (succeeded code)) [
  | inl ok ↦ rw ok (h l)
  | inr failed ↦ rw failed refl
]

scan_wayland-IsQuiet : (files : Files) (l : SessionList) → IsQuiet (scan_wayland files l).1
unfolding scan_wayland scan_session_directory
scan_wayland-IsQuiet files l =
    let wayland = scan_session_directory files wayland_session_dir session_wayland l in
    IsQuiet-append wayland.1 (or_free wayland.0 finish_discover).1
      (scan_opened-IsQuiet files wayland_session_dir session_wayland
        (files.opendir wayland_session_dir) l)
      (or_free-IsQuiet wayland.0 finish_discover finish_discover-IsQuiet)

pub session_discover-IsQuiet : (files : Files) → IsQuiet (session_discover files).1
unfolding session_discover scan_session_directory
session_discover-IsQuiet files =
    let x11 = scan_session_directory files x11_session_dir session_x11 no_sessions in
    IsQuiet-append x11.1 (or_free x11.0 (scan_wayland files)).1
      (scan_opened-IsQuiet files x11_session_dir session_x11 (files.opendir x11_session_dir)
        no_sessions)
      (or_free-IsQuiet x11.0 (scan_wayland files) (scan_wayland-IsQuiet files))
