-- ===== src/Tests/Whole.antt =====
-- The whole program of src/main.c on one login.
use kia.Base.{◌≡◌, refl, [], ◌∷◌, none, some, true, false, arith, if◌then◌else◌, replicate}
use kia.Text.{codes, equal, cstr, zeros, pad, strncpy, copy_string}
use kia.Stdio.{fgets, read_line}
use kia.Config.{name_size, config_load, config_set_defaults}
use kia.Session.Discover.{Files, session_discover}
use kia.Session.Discover.{
  scan_session_directory, scan_names, add_file, add_parsed, resize, contains,
}
use kia.Session.Desktop.{parse_desktop_file, parse_lines, parse_line, cut_line, starts_with}
use kia.Session.Start.{session_start, start_for, fork_for, wait_for, wait_child}
use kia.Tui.Credentials.{action_of}
use kia.Tui.Credentials.Refinement.{tui_get_credentials-enter_texts}
use kia.Tui.Menu.{tui_select_session, select_from, menu_loop, menu_step, move_of, first_selected}
use kia.Auth.Attempt.{answer}
use kia.Controller.{Round, initial_context, find_default_session, find_in, session_at}
use kia.Controller.Handlers.{config_path}
use kia.Controller.Beginning.{BeginsWell, at_login}
use kia.Controller.Login.{GoesWell}
use kia.Tui.{key_enter}
use kia.Tui.Menu.Choice.{press}
use kia.Main.{MainEnv, exit_success, main}
use kia.Main.Login.{first_config, main_login}
use kia.Tests.Sessions.{fresh, xfce_file}
use kia.Tests.Startup.{main_env}
use kia.Tests.Program.{round_with, typing}

abbrev files : Files
files = record {
  fopen = λ path. if equal path config_path then none else some xfce_file;
  opendir =
      λ _. some (record { names = codes "xfce.desktop" ∷ []; read_error = false; closes = true });
  grows = λ _. true;
  fresh = fresh;
}

abbrev loading : Round
loading = record (round_with true []) { files = files }

abbrev login_env : MainEnv
login_env = record main_env {
  rounds =
      round_with true []
      ∷ loading
      ∷ round_with true []
      ∷ round_with true []
      ∷ round_with true typing
      ∷ round_with true (press key_enter ∷ [])
      ∷ round_with true []
      ∷ round_with true []
      ∷ [];
}

begins : BeginsWell (first_config login_env) (round_with true []) loading
unfolding session_discover scan_session_directory scan_names add_file add_parsed resize
    parse_desktop_file parse_lines parse_line cut_line starts_with contains fgets read_line at_login
    config_load config_set_defaults first_config equal cstr zeros pad strncpy copy_string
begins = record { screen_on = refl; scanned = refl; filled = omega arith; by_hand = refl }

goes :
    GoesWell
      (at_login (first_config login_env) loading)
      (round_with true typing)
      (round_with true (press key_enter ∷ []))
      (round_with true [])
      (round_with true [])
      (pad name_size (codes "ada"))
      (pad name_size (codes "pw"))
      0
unfolding session_discover scan_session_directory scan_names add_file add_parsed resize
    parse_desktop_file parse_lines parse_line cut_line starts_with contains fgets read_line at_login
    config_load config_set_defaults first_config equal cstr zeros pad strncpy copy_string action_of
    replicate answer session_start start_for fork_for wait_for wait_child session_at
    find_default_session find_in tui_select_session select_from menu_loop menu_step move_of
    first_selected initial_context
goes = record {
  typed =
      tui_get_credentials-enter_texts (round_with true typing).screen typing (zeros name_size)
        (zeros name_size) name_size name_size (omega arith) (omega arith) refl refl;
  user_given = refl;
  user_fits = refl;
  password_given = refl;
  chosen = refl;
  within = omega arith;
  free = refl;
  taken = refl;
  ran = refl;
}

main_login_example : (main login_env).0.0 ≡ exit_success
main_login_example =
    main_login login_env (round_with true []) loading (round_with true []) (round_with true [])
      (round_with true typing) (round_with true (press key_enter ∷ [])) (round_with true [])
      (round_with true []) (pad name_size (codes "ada")) (pad name_size (codes "pw")) 0
      (record { no_arguments = refl; is_root = refl; term_handled = refl; int_handled = refl }) refl
      begins goes
