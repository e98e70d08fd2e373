-- ===== src/Lib.antt =====
-- Verification library of Kia, a display manager for the Linux console that is written in C.
--
-- The program. `main` (src/main.c) checks its options and the user, opens the log, loads the
-- configuration and runs the controller (src/controller.c), a loop over a state: INIT, LOAD_CONFIG,
-- CHECK_AUTOLOGIN, SHOW_LOGIN, GET_CREDENTIALS, SELECT_SESSION, AUTHENTICATE, START_SESSION, EXIT.
-- Its handlers call the configuration (src/config.c), the sessions (src/session.c), the terminal
-- interface (src/tui.c), PAM through src/auth.c, and the log (src/logger.c).
--
-- How it is modelled. A `char *` is the list of its bytes, a `char` array in a structure the list
-- of all its bytes (Text); a null pointer is `none`. A function that reads files by lines gets the
-- contents (Stdio). What the system, PAM and the user answer are arguments: records of functions
-- and lists of answers (AuthEnv, Files, ChildEnv, StartEnv, Screen, Turn, Round, MainEnv). What the
-- program asks of the system is the list of calls that a function returns beside its result, in
-- order (Effect). The static variables of src/auth.c (AuthGlobals) and of src/logger.c (Logger)
-- are passed along. A call of `logger_log` in another part is an effect with its level and its
-- format; Logger/Replay says which lines a list of effects writes.
--
-- Base          numbers, tests, lists and integers that all parts share
-- Text, Stdio   C strings and arrays; strncpy, strcmp, isspace, atoi; fgets and long lines
-- Code          the codes of include/config.h
-- Config        src/config.c: config_load, config_validate, parse_config_line and what they call;
--               Config/Trim, Bounds, Lines, Spec, Files, Refused, Numbers, Settings and RoundTrip
--               prove its properties
-- Logger        src/logger.c: logger_init, logger_log, logger_close; Logger/Timestamp is about
--               get_iso8601_timestamp
-- Auth          src/auth.c: auth_authenticate, the lockout, tty_lock, tty_unlock, auth_cleanup;
--               Auth/Conversation is pam_conversation, and Auth/Disabled follows a setting of the
--               file into the lockout
-- Tui           src/tui.c: Tui/Drawing has tui_init, tui_cleanup, tui_draw_login_screen and the
--               messages; Tui/Credentials is tui_get_credentials, Tui/Menu is tui_select_session
-- Session       src/session.c: Session/Desktop is parse_desktop_file, Session/Discover is
--               session_discover with the scan of a directory, Session/Start is session_start
-- Controller    src/controller.c: the context and the helpers; Controller/Handlers the handlers,
--               Controller/Loop is controller_run and controller_cleanup; Controller/Stages says
--               what holds in each state and which contexts are reached, Controller/Graph which
--               states follow which; Controller/Beginning and Login follow the rounds of a
--               login; Controller/Progress, Strings, Limit, Interrupted and Resources say what
--               holds along the way
-- Main          src/main.c; Main/Startup, Login and Shutdown follow it from
--               its start to its end
-- Tests         tests, and each theorem at a concrete input
--
-- Bounds and fuel. The loops over the lines of a file run on fuel, for which one more than the
-- length of the file is given: every line that is read shortens the file. The loops over keys and
-- over the rounds of the controller run on the list of the answers that they get; at its end the
-- input has failed for the keys, and the controller still runs. `atoi` keeps the low 32 bits, as
-- the conversion from `long` does. The other numbers have no bound: `time_t`, sizes, and the
-- counters of failed attempts and of sessions.
--
-- Not modelled: what ncurses makes of its calls (the program's calls are effects, in order, with
-- the texts that they print), the formatting of the lines of the log, the permissions of the log
-- file, and when a signal comes outside of `waitpid`. One that comes there makes it fail, as
-- sa_flags is 0, and is an effect of the call; what one does to `getch` is among the answers of the
-- keys; the others that come before the end of the loop are a list. All set the flag that `main`
-- reads behind the loop. Guards of static functions against null pointers that no caller passes
-- are left out.
pub mod Base
pub mod Text
pub mod Stdio
pub mod Code
pub mod Config
pub mod Effect
pub mod Logger
pub mod Auth
pub mod Tui
pub mod Session
pub mod Controller
pub mod Main
pub mod Tests
