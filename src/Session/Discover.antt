-- ===== src/Session/Discover.antt =====
-- `scan_session_directory`, `session_discover` and `session_list_free` of src/session.c.
pub mod Entries
pub mod Slots
pub mod Quiet
use kia.Base.{
  ℕ, zero, suc, ◌+◌, Bool, true, false, not, ◌&&◌, ◌||◌, List, [], ◌∷◌, ◌++◌, Option, none, some,
  length, get_or, set, ltb, leb, ◌==◌, if◌then◌else◌,
}
use kia.Code.{Code, success, error_session, succeeded}
use kia.Text.{Bytes, codes, is_empty}
use kia.Stdio.{File}
use kia.Effect.{Effect, Eff, pure, call, ◌>>=◌, ◌>>◌, debug, info, warn, error, log}
use kia.Session.{SessionType, session_x11, session_wayland, SessionInfo}
use kia.Session.Desktop.{starts_with, parse_desktop_file}

-- `session_list_t`: the array, or null, and how many of its entries count.
pub record SessionList : Type 0 where
  pub sessions : Option (List SessionInfo)
  pub count : ℕ

-- A directory open for reading: the names in it, and whether `readdir` ends with an error and
-- `closedir` works.
pub record Directory : Type 0 where
  pub names : List Bytes
  pub read_error : Bool
  pub closes : Bool

-- What the system answers. `grows n` says that `realloc` gives room for n entries; what the room
-- holds at first is `fresh`.
pub record Files : Type 0 where
  pub fopen : Bytes → Option File
  pub opendir : Bytes → Option Directory
  pub grows : ℕ → Bool
  pub fresh : SessionInfo

abbrev pub x11_session_dir : Bytes
x11_session_dir = codes "/usr/share/xsessions"

abbrev pub wayland_session_dir : Bytes
wayland_session_dir = codes "/usr/share/wayland-sessions"

-- `strstr(name, part) != NULL`
unfoldable pub contains : Bytes → Bytes → Bool
unfolding starts_with
contains part [] = is_empty part
contains part (c ∷ cs) = starts_with part (c ∷ cs) || contains part cs

-- `realloc` to n entries: the old ones as far as there is room, then fresh ones.
unfoldable pub resize : ℕ → SessionInfo → List SessionInfo → List SessionInfo
resize zero fresh l = []
resize (suc n) fresh [] = fresh ∷ resize n fresh []
resize (suc n) fresh (s ∷ l) = s ∷ resize n fresh l

abbrev pub entries : SessionList → List SessionInfo
entries l = elim l.sessions [ none ↦ [] | some a ↦ a ]

-- The parse of one file into the first entry that does not count.
unfoldable pub add_parsed : List SessionInfo → ℕ → Code × SessionInfo → Eff SessionList
unfolding set
add_parsed array count (code, s) =
    if succeeded code
    then (do
      call (log debug "Discovered session: %s (%s)")
      pure (record { sessions = some (set array count s); count = count + 1 }))
    else pure (record { sessions = some (set array count s); count = count })

unfoldable pub add_file : Files → Bytes → SessionType → SessionList → Eff SessionList
add_file files path type l =
    let array = resize (l.count + 1) files.fresh (entries l) in
    do
      parsed ← parse_desktop_file files.fopen path (get_or array l.count files.fresh) type
      add_parsed array l.count parsed

-- The loop over the names; the flag says that it was not broken off.
unfoldable pub scan_names :
    Files → Bytes → SessionType → List Bytes → SessionList → Eff (Bool × SessionList)
scan_names files dir type [] l = pure (true, l)
scan_names files dir type (name ∷ names) l =
    let path = dir ++ b'/' ∷ name in
    let skip = scan_names files dir type names l in
    let long = (do call (log warn "Invalid filename length: %zu"); skip) in
    let far = (do call (log warn "Path too long for: %s/%s"); skip) in
    let full = (do
      call (log error "Failed to allocate memory for session list: %s")
      pure (false, l)) in
    let (l', es) = add_file files path type l in
    let added = scan_names files dir type names l' in
    if not (contains (codes ".desktop") name)
    then skip
    else if length name == 0 || ltb 255 (length name)
    then long
    else if leb 512 (length path)
    then far
    else if files.grows (l.count + 1)
    then (added.0, es ++ added.1)
    else full

close_directory : Directory → Bool × SessionList → Eff (Code × SessionList)
close_directory d (whole, l) =
    if not whole
    then pure (error_session, l)
    else if d.read_error
    then (do call (log error "Error reading directory %s: %s"); pure (error_session, l))
    else if d.closes
    then pure (success, l)
    else (do call (log warn "Failed to close directory %s: %s"); pure (success, l))

scan_opened :
    Files → Bytes → SessionType → Option Directory → SessionList → Eff (Code × SessionList)
unfolding scan_names close_directory
scan_opened files dir type none l = do
  call (log debug "Session directory not found: %s (%s)")
  pure (success, l)
scan_opened files dir type (some d) l = do
  scanned ← scan_names files dir type d.names l
  close_directory d scanned

unfoldable pub scan_session_directory :
    Files → Bytes → SessionType → SessionList → Eff (Code × SessionList)
unfolding scan_opened
scan_session_directory files dir type l = scan_opened files dir type (files.opendir dir) l

-- `if (list->sessions) { … }`
unfoldable pub free_sessions : Option (List SessionInfo) → SessionList → SessionList
free_sessions none l = l
free_sessions (some _) l = record { sessions = none; count = 0 }

unfoldable pub session_list_free : SessionList → SessionList
unfolding free_sessions
session_list_free l = free_sessions l.sessions l

-- Both directories have been scanned.
finish_discover : SessionList → Eff (Code × SessionList)
finish_discover l =
    if l.count == 0
    then (do call (log error "No sessions discovered"); pure (error_session, l))
    else (do call (log info "Discovered %d session(s)"); pure (success, l))

-- A scan has come back with a code; `next` goes on if it is a success.
abbrev or_free :
    Code × SessionList → (SessionList → Eff (Code × SessionList)) → Eff (Code × SessionList)
or_free (code, l) next =
    if succeeded code then next l else pure (error_session, session_list_free l)

-- The second scan, and what follows it.
scan_wayland : Files → SessionList → Eff (Code × SessionList)
scan_wayland files l = do
  wayland ← scan_session_directory files wayland_session_dir session_wayland l
  or_free wayland finish_discover

abbrev pub no_sessions : SessionList
no_sessions = record { sessions = none; count = 0 }

-- What the list held before is forgotten.
unfoldable pub session_discover : Files → Eff (Code × SessionList)
unfolding scan_session_directory session_list_free finish_discover scan_wayland
session_discover files = do
  x11 ← scan_session_directory files x11_session_dir session_x11 no_sessions
  or_free x11 (scan_wayland files)
