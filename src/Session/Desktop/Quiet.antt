-- ===== src/Session/Desktop/Quiet.antt =====
-- The calls of `parse_desktop_file` of src/session.c.
use kia.Base.{suc, length, Option, none, some, arith, Bool, false, refl, Bool-cases, inl, inr}
use kia.Text.{Bytes, is_empty, zeros}
use kia.Stdio.{File}
use kia.Effect.Quiet.{IsQuiet}
use kia.Config.{name_size}
use kia.Session.{SessionType, SessionInfo, exec_size}
use kia.Session.Desktop.{parse_desktop_file, parse_opened, finish_parse, parse_lines, Found}

finish_parse-IsQuiet :
    (type : SessionType) (e : Bool) (f : Found × Bool) → IsQuiet (finish_parse type e f).1
unfolding finish_parse
finish_parse-IsQuiet type e f = ground arith

parse_opened-IsQuiet :
    (type : SessionType) (f : Option File) (s : SessionInfo) → IsQuiet (parse_opened type f s).1
unfolding parse_opened
parse_opened-IsQuiet type none s = ground arith
parse_opened-IsQuiet type (some f) s = finish_parse-IsQuiet type f.read_error (
    parse_lines (suc (length f.contents)) f.contents (record {
      session = record s { name = zeros name_size; exec = zeros exec_size };
      found_name = false;
      found_exec = false;
    }))

pub parse_desktop_file-IsQuiet :
    (fopen : Bytes → Option File) (path : Bytes) (s : SessionInfo) (type : SessionType)
    → IsQuiet (parse_desktop_file fopen path s type).1
unfolding parse_desktop_file
parse_desktop_file-IsQuiet fopen path s type = elim (Bool-cases (is_empty path)) [
  | inl empty ↦ rw empty refl
  | inr given ↦ rw given (parse_opened-IsQuiet type (fopen path) s)
]
