-- ===== src/Session/Desktop.antt =====
-- `parse_desktop_file` of src/session.c: the name and the command of a session.
pub mod Fields
pub mod Quiet
use kia.Base.{
  ℕ, zero, suc, Bool, true, false, not, ◌&&◌, ◌||◌, List, [], ◌∷◌, Option, none, some, length, drop,
  ltb, ◌==◌, if◌then◌else◌,
}
use kia.Code.{Code, success, error_session}
use kia.Text.{Bytes, codes, cstr, is_empty, zeros, copy_string}
use kia.Stdio.{File, Line, fgets, skip_line, is_truncated}
use kia.Effect.{Eff, pure, call, ◌>>=◌, ◌>>◌, warn, error, log}
use kia.Config.{name_size}
use kia.Session.{SessionType, SessionInfo, exec_size}

-- The structure, and the flags `found_name` and `found_exec`.
pub record Found : Type 0 where
  pub session : SessionInfo
  pub found_name : Bool
  pub found_exec : Bool

-- `line[strcspn(line, "\n")] = '\0'`
unfoldable pub cut_line : Bytes → Bytes
cut_line [] = []
cut_line (c ∷ cs) = if c == b'\n' then [] else c ∷ cut_line cs

-- `strncmp(line, prefix, strlen(prefix)) == 0`
unfoldable pub starts_with : Bytes → Bytes → Bool
starts_with [] line = true
starts_with (c ∷ cs) [] = false
starts_with (c ∷ cs) (d ∷ ds) = c == d && starts_with cs ds

abbrev pub name_prefix : Bytes
name_prefix = codes "Name="

abbrev pub exec_prefix : Bytes
exec_prefix = codes "Exec="

-- `line + 5`
abbrev pub value_of : Bytes → Bytes
value_of line = drop 5 line

-- The value is not empty, and fits an array of the size.
abbrev pub value_fits : ℕ → Bytes → Bool
value_fits size v = ltb 0 (length v) && ltb (length v) size

take_name : Bytes → Found → Found
take_name v f =
    if value_fits name_size v
    then record f {
      session = record f.session { name = copy_string name_size f.session.name v };
      found_name = true;
    }
    else f

take_exec : Bytes → Found → Found
take_exec v f =
    if value_fits exec_size v
    then record f {
      session = record f.session { exec = copy_string exec_size f.session.exec v };
      found_exec = true;
    }
    else f

-- One line, with its newline cut.
unfoldable pub parse_line : Bytes → Found → Found
unfolding starts_with take_name take_exec
parse_line line f =
    if starts_with name_prefix line && not f.found_name
    then take_name (value_of line) f
    else if starts_with exec_prefix line && not f.found_exec
    then take_exec (value_of line) f
    else f

-- The loop; the flag says that it went on to the end of the file. Each round shortens the file,
-- so its length is fuel enough.
unfoldable pub parse_lines : ℕ → Bytes → Found → Found × Bool
unfolding fgets is_truncated skip_line cut_line parse_line
parse_lines zero s f = (f, true)
parse_lines (suc fuel) s f = elim (fgets 1024 s) [
  | none ↦ (f, true)
  | some l ↦ elim (is_truncated l) [
    | true ↦ parse_lines fuel (skip_line l.rest) f
    | false ↦
        let f' = parse_line (cut_line (cstr l.text)) f in
        elim (f'.found_name && f'.found_exec) [
          | true ↦ (f', false)
          | false ↦ parse_lines fuel l.rest f'
        ]
  ]
]

-- Behind the loop. A read error shows only if the loop came to it.
finish_parse : SessionType → Bool → Found × Bool → Eff (Code × SessionInfo)
finish_parse type read_error (f, at_end) =
    if at_end && read_error
    then (do call (log error "Error reading desktop file: %s"); pure (error_session, f.session))
    else if not f.found_name || not f.found_exec
    then (do
      call (log warn "Incomplete desktop file: %s (name=%d, exec=%d)")
      pure (error_session, f.session))
    else pure (success, record f.session { type = type })

parse_opened : SessionType → Option File → SessionInfo → Eff (Code × SessionInfo)
unfolding parse_lines finish_parse zeros
parse_opened type none s = do
  call (log warn "Failed to open desktop file: %s (%s)")
  pure (error_session, s)
parse_opened type (some file) s = finish_parse type file.read_error (
    parse_lines (suc (length file.contents)) file.contents (record {
      session = record s { name = zeros name_size; exec = zeros exec_size };
      found_name = false;
      found_exec = false;
    }))

unfoldable pub parse_desktop_file :
    (Bytes → Option File) → Bytes → SessionInfo → SessionType → Eff (Code × SessionInfo)
unfolding parse_opened
parse_desktop_file fopen path s type =
    if is_empty path
    then (do call (log error "Empty filepath provided"); pure (error_session, s))
    else parse_opened type (fopen path) s
