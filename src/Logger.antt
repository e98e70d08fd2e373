-- ===== src/Logger.antt =====
-- src/logger.c: the log file, its switch, and what a call of `logger_log` writes.
pub mod Gate
pub mod Replay
pub mod Timestamp
use kia.Base.{
  ℕ, zero, suc, ◌+◌, ◌-◌, ◌/◌, ◌%◌, Bool, true, false, not, ◌&&◌, ◌||◌, List, [], ◌∷◌, ◌++◌, Option,
  none, some, take, drop, length, ltb, leb, ◌==◌, if◌then◌else◌,
}
use kia.Code.{Code, success, error_system}
use kia.Text.{Bytes, codes, cstr, decimal}
use kia.Effect.{Level, debug, info, warn, error}

-- The three static variables; of the file, whether it is open.
pub record Logger : Type 0 where
  pub log_file : Bool
  pub logging_enabled : Bool
  pub min_log_level : ℕ

-- `struct tm`, as far as it is used.
pub record Tm : Type 0 where
  pub tm_year : ℕ
  pub tm_mon : ℕ
  pub tm_mday : ℕ
  pub tm_hour : ℕ
  pub tm_min : ℕ
  pub tm_sec : ℕ

-- What the system answers: `fopen` for appending, `time`, `gmtime`, and whether `fprintf` and
-- `fflush` work. `garbles` is what a `strftime` that fails leaves in its array, which C does not
-- say, and `memory` what stands in the array of 32 bytes at first.
pub record LogSystem : Type 0 where
  pub opens : Bytes → Bool
  pub time : Option ℕ
  pub gmtime : ℕ → Option Tm
  pub writes : Bool
  pub flushes : Bool
  pub garbles : Bytes → Bytes
  pub memory : Bytes

-- The format with its arguments: null, one that `vsnprintf` refuses, or the text that it makes.
pub data Message : Type 0 where
  null_format bad_format : Message
  formatted : Bytes → Message

-- The values of `log_level_t`, and the strings for them.
abbrev pub level_number : Level → ℕ
level_number debug = 0
level_number info = 1
level_number warn = 2
level_number error = 3

abbrev pub log_level_string : ℕ → Bytes
log_level_string n =
    if n == 0
    then codes "DEBUG"
    else if n == 1
    then codes "INFO"
    else if n == 2
    then codes "WARN"
    else codes "ERROR"

unfoldable pub two_digits : ℕ → Bytes
two_digits n = (b'0' + n / 10 % 10) ∷ (b'0' + n % 10) ∷ []

-- What stands behind the year in "%Y-%m-%dT%H:%M:%SZ".
unfoldable pub behind_year : Tm → Bytes
unfolding two_digits
behind_year tm =
    b'-' ∷ two_digits (tm.tm_mon + 1)
    ++ b'-' ∷ two_digits tm.tm_mday
    ++ b'T' ∷ two_digits tm.tm_hour
    ++ b':' ∷ two_digits tm.tm_min
    ++ b':' ∷ two_digits tm.tm_sec
    ++ b'Z' ∷ []

unfoldable pub iso8601 : Tm → Bytes
unfolding behind_year
iso8601 tm = decimal (tm.tm_year + 1900) ++ behind_year tm

-- `strftime` for that format; `none` is 0, when text and terminator do not fit.
unfoldable pub strftime : ℕ → Tm → Option Bytes
unfolding iso8601
strftime size tm = if ltb (length (iso8601 tm)) size then some (iso8601 tm) else none

-- A text with its terminator, over the first bytes of an array.
unfoldable pub put_string : Bytes → Bytes → Bytes
unfolding drop
put_string text buffer = text ++ 0 ∷ drop (length text + 1) buffer

-- `snprintf(buffer, size, "UNKNOWN")`
unfoldable pub put_unknown : Bytes → Bytes
put_unknown buffer = put_string (take (length buffer - 1) (codes "UNKNOWN")) buffer

-- What `strftime` answers is `none` for 0.
abbrev pub after_strftime : LogSystem → Bytes → Option Bytes → Bytes
after_strftime sys buffer none = put_unknown (sys.garbles buffer)
after_strftime sys buffer (some text) = put_string text buffer

unfoldable pub timestamp_of : LogSystem → Bytes → Option Tm → Bytes
timestamp_of sys buffer none = put_unknown buffer
timestamp_of sys buffer (some tm) = after_strftime sys buffer (strftime (length buffer) tm)

unfoldable pub timestamp_at : LogSystem → Bytes → Option ℕ → Bytes
timestamp_at sys buffer none = put_unknown buffer
timestamp_at sys buffer (some now) = timestamp_of sys buffer (sys.gmtime now)

-- The array behind the call; its size is its length.
unfoldable pub get_iso8601_timestamp : LogSystem → Bytes → Bytes
unfolding timestamp_at
get_iso8601_timestamp sys buffer =
    if length buffer == 0 then buffer else timestamp_at sys buffer sys.time

-- A null path is `none`.
unfoldable pub logger_init : LogSystem → Option Bytes → Bool → Logger → Code × Logger
logger_init sys none enabled s = (error_system, s)
logger_init sys (some path) enabled s =
    if not enabled
    then (success, record s { logging_enabled = enabled })
    else if sys.opens path
    then (success, record s { logging_enabled = enabled; log_file = true })
    else (error_system, record s { logging_enabled = false; log_file = false })

-- "%s [%s] %s\n", with the message cut to its array.
unfoldable pub entry : LogSystem → ℕ → Bytes → Bytes
unfolding get_iso8601_timestamp cstr
entry sys level message =
    cstr (get_iso8601_timestamp sys sys.memory)
    ++ codes " ["
    ++ log_level_string level
    ++ codes "] "
    ++ take 1023 message
    ++ b'\n' ∷ []

-- The gates are passed; the lines that are written come back beside the state.
unfoldable pub write_entry : LogSystem → ℕ → Message → Logger → Logger × List Bytes
write_entry sys level null_format s = (s, [])
write_entry sys level bad_format s = (record s { logging_enabled = false }, [])
write_entry sys level (formatted message) s = (
  record s { logging_enabled = s.logging_enabled && sys.writes && sys.flushes },
  if sys.writes then entry sys level message ∷ [] else [],
)

abbrev pub is_null : Message → Bool
is_null null_format = true
is_null _ = false

unfoldable pub logger_log : LogSystem → ℕ → Message → Logger → Logger × List Bytes
unfolding write_entry
logger_log sys level m s =
    if is_null m
    then (s, [])
    else if not s.logging_enabled || not s.log_file
    then (s, [])
    else if ltb level s.min_log_level
    then (s, [])
    else if ltb 3 level
    then (s, [])
    else write_entry sys level m s

unfoldable pub logger_close : Logger → Logger
logger_close s = record s { log_file = false; logging_enabled = false }
