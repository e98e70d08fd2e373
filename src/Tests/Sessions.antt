-- ===== src/Tests/Sessions.antt =====
-- src/session.c on a concrete directory, user and screen.
use kia.Base.{List, ℕ, ap, sym, none, Option, ◌++◌, true, false, [], ◌∷◌, some}
use kia.Session.Start.Groups.{HasGroups, LeavesGroups, run_child-HasGroups}
use kia.Text.{codes, zeros, copy_string}
use kia.Text.Buffers.{length-zeros}
use kia.Stdio.{File}
use kia.Session.{session_x11, SessionInfo, exec_size}
use kia.Config.{name_size}
use kia.Session.Desktop.{parse_desktop_file}
use kia.Session.Desktop.Fields.{IsSlot, IsParsed, parse_desktop_file-IsParsed}
use kia.Session.Discover.{Files, session_discover}
use kia.Session.Discover.Entries.{IsDiscovered, session_discover-IsDiscovered}
use kia.Session.Start.{Credentials, ChildEnv, Account, run_child}
use kia.Session.Start.Privileges.{IfBecame, IsLaunched, run_child-IsLaunched, display_calls}
use kia.Effect.{set_environment, changed_directory}

abbrev pub fresh : SessionInfo
fresh = record { name = zeros name_size; exec = zeros exec_size; type = session_x11 }

fresh-IsSlot : IsSlot fresh
fresh-IsSlot = record { name_sized = length-zeros name_size; exec_sized = length-zeros exec_size }

abbrev pub xfce_file : File
xfce_file = record {
  contents = codes "Name=Xfce" ++ b'\n' ∷ codes "Exec=startxfce4" ++ b'\n' ∷ [];
  read_error = false;
}

abbrev files : Files
files = record {
  fopen = λ _. some xfce_file;
  opendir =
      λ _. some (record { names = codes "xfce.desktop" ∷ []; read_error = false; closes = true });
  grows = λ _. true;
  fresh = fresh;
}

parse_desktop_file-IsParsed_example :
    IsParsed session_x11
      (parse_desktop_file files.fopen
        (codes "/usr/share/xsessions/xfce.desktop")
        fresh
        session_x11).0
parse_desktop_file-IsParsed_example =
    parse_desktop_file-IsParsed files.fopen (codes "/usr/share/xsessions/xfce.desktop") fresh
      session_x11 fresh-IsSlot

session_discover-IsDiscovered_example : IsDiscovered (session_discover files).0
session_discover-IsDiscovered_example = session_discover-IsDiscovered files fresh-IsSlot

abbrev ada : Account
ada = record {
  username = codes "ada";
  home = codes "/home/ada";
  shell = codes "/bin/bash";
  uid = 1000;
  gid = 1000;
}

abbrev root : Credentials
root = record { ruid = 0; euid = 0; rgid = 0; egid = 0; groups = 0 ∷ [] }

abbrev willing : ChildEnv
willing = record {
  sets = λ _. true;
  chdirs = λ _. true;
  setgid = λ g c. some (record c { rgid = g; egid = g });
  setuid = λ u c. some (record c { ruid = u; euid = u });
  execs = λ _. true;
}

abbrev xfce : SessionInfo
xfce = record {
  name = copy_string name_size (zeros name_size) (codes "Xfce");
  exec = copy_string exec_size (zeros exec_size) (codes "startxfce4");
  type = session_x11;
}

run_child-IsLaunched_example :
    IfBecame
      (IsLaunched ada (
        set_environment (codes "HOME") ada.home
        ∷ set_environment (codes "USER") ada.username
        ∷ set_environment (codes "LOGNAME") ada.username
        ∷ set_environment (codes "SHELL") ada.shell
        ∷ (display_calls ada xfce.type ++ changed_directory ada.home ∷ [])))
      (run_child willing xfce ada root)
run_child-IsLaunched_example = run_child-IsLaunched ada willing xfce root

abbrev groups_of : Option Credentials → List ℕ → List ℕ
groups_of none groups = groups
groups_of (some c) groups = c.groups

willing-LeavesGroups : LeavesGroups willing
willing-LeavesGroups = record {
  by_setgid = λ g c c' e. ap (λ o. groups_of o c.groups) (sym e);
  by_setuid = λ u c c' e. ap (λ o. groups_of o c.groups) (sym e);
}

run_child-HasGroups_example : HasGroups root.groups (run_child willing xfce ada root)
run_child-HasGroups_example = run_child-HasGroups willing xfce ada root willing-LeavesGroups
