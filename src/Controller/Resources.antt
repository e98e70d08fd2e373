-- ===== src/Controller/Resources.antt =====
-- What the loop of src/controller.c takes of the terminal and of PAM, and gives back.
use kia.Base.{
  ℕ, Option, none, ◌+◌, ◌≡◌, refl, sym, subst, ap, ◌∙◌, true, not, ◌&&◌, ◌||◌, List, [], ◌∷◌, ◌++◌,
  some, All, arith, Bool-cases, inl, inr,
}
use kia.Code.{Code, succeeded}
use kia.Text.{cstr, codes}
use kia.Effect.{Effect, log, warn}
use kia.Effect.Quiet.{IsQuiet, is_quiet}
use kia.Auth.{AuthGlobals, Outcome, idle, auth_is_locked_out, authenticate}
use kia.Auth.Resources.{Use, count_use, use_of, Left, with_handle, authenticate-IsReleased}
use kia.Controller.{
  AppState, state_init, state_load_config, state_check_autologin, state_show_login,
  state_get_credentials, state_select_session, state_authenticate, state_start_session, state_exit,
  AppContext, Round,
}
use kia.Tui.Drawing.{tui_show_error}
use kia.Controller.Handlers.{
  handle_init, handle_load_config, handle_check_autologin, handle_show_login,
  handle_get_credentials, handle_select_session, handle_start_session,
}
use kia.Controller.Handlers.Authenticate.{handle_authenticate, authenticated}
use kia.Controller.Loop.{handle, is_exit, run_rounds}
use kia.Controller.Quiet.{
  error-IsQuiet, handle_init-IsQuiet, handle_load_config-IsQuiet, handle_check_autologin-IsQuiet,
  handle_show_login-IsQuiet, handle_get_credentials-IsQuiet, handle_select_session-IsQuiet,
  handle_start_session-IsQuiet,
}

abbrev sum : Use → Use → Use
sum u v = record {
  opened = u.opened + v.opened;
  closed = u.closed + v.closed;
  locked = u.locked + v.locked;
  unlocked = u.unlocked + v.unlocked;
  begun = u.begun + v.begun;
  ended = u.ended + v.ended;
  refused_starts = u.refused_starts + v.refused_starts;
}

-- Whatever is taken is given back: the terminals, their locks, and the sessions of PAM.
pub record IsEven (u : Use) : Type 0 where
  pub terminals : u.opened ≡ u.closed
  pub locks : u.locked ≡ u.unlocked
  pub sessions : u.begun ≡ u.ended

abbrev pub IsBalanced : List Effect → Type 0
IsBalanced es = IsEven (use_of es)

sum_zero : (u : Use) → sum (use_of []) u ≡ u
sum_zero u = ground arith

sum-count_use : (e : Effect) (u v : Use) → sum (count_use e u) v ≡ count_use e (sum u v)
sum-count_use e u v = ground arith

use_of-append : (es fs : List Effect) → use_of (es ++ fs) ≡ sum (use_of es) (use_of fs)
use_of-append [] fs = sym (sum_zero (use_of fs))
use_of-append (e ∷ es) fs =
    ap (count_use e) (use_of-append es fs) ∙ sym (sum-count_use e (use_of es) (use_of fs))

count_quiet : (e : Effect) (u : Use) → is_quiet e ≡ true → count_use e u ≡ u
count_quiet e u h = ground arith

use_of_quiet : (es : List Effect) → IsQuiet es → use_of es ≡ use_of []
use_of_quiet [] h = refl
use_of_quiet (e ∷ es) h = count_quiet e (use_of es) (ground arith) ∙ use_of_quiet es (ground arith)

quiet-IsBalanced : (es : List Effect) → IsQuiet es → IsBalanced es
quiet-IsBalanced es h =
    subst IsEven (sym (use_of_quiet es h))
      (record { terminals = refl; locks = refl; sessions = refl })

append-IsBalanced : (es fs : List Effect) → IsBalanced es → IsBalanced fs → IsBalanced (es ++ fs)
append-IsBalanced es fs b c = subst IsEven (sym (use_of-append es fs)) (record {
  terminals = omega (arith, b.terminals, c.terminals);
  locks = omega (arith, b.locks, c.locks);
  sessions = omega (arith, b.sessions, c.sessions);
})

-- No terminal is held at the end, and a handle only if a `pam_start` has failed, of which there
-- were n before.
pub record Returned (n : ℕ) (g : AuthGlobals) (es : List Effect) : Type 0 where
  pub no_terminal : g.tty_fd ≡ none
  pub handle : Left (n + (use_of es).refused_starts) g.pam_handle
  pub balanced : IsBalanced es

-- Two traces, one behind the other.
append-Returned :
    (n : ℕ) (g g' : AuthGlobals) (es fs : List Effect)
    → Returned n g es
    → Returned (n + (use_of es).refused_starts) g' fs
    → Returned n g' (es ++ fs)
append-Returned n g g' es fs b c = record {
  no_terminal = c.no_terminal;
  handle =
      subst (λ k. Left k g'.pam_handle)
        (omega arith ∙ ap (λ u. n + u.refused_starts) (sym (use_of-append es fs))) c.handle;
  balanced = append-IsBalanced es fs b.balanced c.balanced;
}

use_of-append_quiet : (es fs : List Effect) → IsQuiet fs → use_of (es ++ fs) ≡ use_of es
use_of-append_quiet es fs q =
    use_of-append es fs ∙ ap (sum (use_of es)) (use_of_quiet fs q) ∙ ground arith

append_quiet-Returned :
    (n : ℕ) (g : AuthGlobals) (es fs : List Effect)
    → Returned n g es
    → IsQuiet fs
    → Returned n g (es ++ fs)
append_quiet-Returned n g es fs b q =
    let same = sym (use_of-append_quiet es fs q) in
    record {
      no_terminal = b.no_terminal;
      handle = subst (λ u. Left (n + u.refused_starts) g.pam_handle) same b.handle;
      balanced = subst IsEven same b.balanced;
    }

quiet-Returned :
    (n : ℕ) (h : Option ℕ) (es : List Effect)
    → Left n h
    → IsQuiet es
    → Returned n (with_handle h) es
quiet-Returned n h es before q =
    append_quiet-Returned n (with_handle h) [] es
      (record {
        no_terminal = refl;
        handle = subst (λ k. Left k h) (omega arith) before;
        balanced = quiet-IsBalanced [] refl;
      })
      q

-- The system undoes a lock of the terminal.
abbrev pub IsOrderly : Round → Type 0
IsOrderly r = r.auth.terminal.unlocks ≡ true

module _ (r : Round) (o : IsOrderly r) (n : ℕ) (h : Option ℕ) (before : Left n h) where
  authenticated-IsQuiet :
      (ctx : AppContext) (a : Outcome) → IsQuiet (authenticated r.screen ctx a).1
  unfolding authenticated
  authenticated-IsQuiet ctx a = grind (arith, error-IsQuiet)

  authenticated-globals :
      (ctx : AppContext) (a : Outcome) → (authenticated r.screen ctx a).0.1 ≡ a.2
  unfolding authenticated
  authenticated-globals ctx a = ground arith

  handle_authenticate-Returned :
      (ctx : AppContext)
      → let run = handle_authenticate r ctx (with_handle h) in Returned n run.0.1 run.1
  unfolding handle_authenticate
  handle_authenticate-Returned ctx =
      let s = (auth_is_locked_out r.clock ctx.auth_state).1 in
      let user = cstr ctx.username in
      let shown = codes "Too many failed attempts. Please wait before trying again." in
      let a = authenticate r.auth user (cstr ctx.password) ctx.config s (with_handle h) in
      let back = authenticate-IsReleased r.auth user (cstr ctx.password) ctx.config s h n before in
      let quiet = authenticated-IsQuiet ctx a.0 in
      let own : Returned n a.0.2 a.1 = record {
        no_terminal = back.no_terminal;
        handle = back.handle;
        balanced = record {
          terminals = back.terminals;
          locks = back.locks o;
          sessions = back.sessions;
        };
      } in
      elim (Bool-cases (auth_is_locked_out r.clock ctx.auth_state).0) [
        | inl locked ↦ rw locked (
            quiet-Returned n h
              (log warn "User '%s' is locked out"
                ∷ ((tui_show_error r.screen (some shown)).1 ++ []))
              before (error-IsQuiet r.screen shown))
        | inr free ↦
            rw (free, authenticated-globals ctx a.0)
              (append_quiet-Returned n a.0.2 a.1 (authenticated r.screen ctx a.0).1 own quiet)
      ]

  handle-Returned :
      (state : AppState) (result : Code) (ctx : AppContext)
      → let run = handle state r result ctx (with_handle h) in Returned n run.0.1 run.1
  unfolding handle
  handle-Returned state_init result ctx =
      quiet-Returned n h (handle_init r ctx).1 before (handle_init-IsQuiet r ctx)
  handle-Returned state_load_config result ctx =
      quiet-Returned n h (handle_load_config r ctx).1 before (handle_load_config-IsQuiet r ctx)
  handle-Returned state_check_autologin result ctx =
      quiet-Returned n h (handle_check_autologin r ctx).1 before
        (handle_check_autologin-IsQuiet r ctx)
  handle-Returned state_show_login result ctx =
      quiet-Returned n h (handle_show_login r ctx).1 before (handle_show_login-IsQuiet r ctx)
  handle-Returned state_get_credentials result ctx =
      quiet-Returned n h (handle_get_credentials r ctx).1 before
        (handle_get_credentials-IsQuiet r ctx)
  handle-Returned state_select_session result ctx =
      quiet-Returned n h (handle_select_session r ctx).1 before
        (handle_select_session-IsQuiet r ctx)
  handle-Returned state_authenticate result ctx = handle_authenticate-Returned ctx
  handle-Returned state_start_session result ctx =
      quiet-Returned n h (handle_start_session r ctx).1 before (handle_start_session-IsQuiet r ctx)
  handle-Returned state_exit result ctx = quiet-Returned n h [] before refl

-- No terminal is open, so the handle is all that is held.
only_handle : (g : AuthGlobals) → g.tty_fd ≡ none → g ≡ with_handle g.pam_handle
only_handle g e = ap (λ t. record { pam_handle = g.pam_handle; tty_fd = t }) e

rounds-Returned :
    (rs : List Round) (result : Code) (ctx : AppContext) (n : ℕ) (h : Option ℕ)
    → All IsOrderly rs
    → Left n h
    → let run = run_rounds rs result ctx (with_handle h) in Returned n run.0.2 run.1
unfolding run_rounds
rounds-Returned [] result ctx n h o before = quiet-Returned n h [] before refl
rounds-Returned (r ∷ rs) result ctx n h (o, os) before =
    let step = handle ctx.state r result ctx (with_handle h) in
    let one = handle-Returned r o n h before ctx.state result ctx in
    let more = run_rounds rs step.0.0.0 step.0.0.1 step.0.1 in
    let m = n + (use_of step.1).refused_starts in
    let rest : Returned m more.0.2 more.1 =
      subst (λ g. let run = run_rounds rs step.0.0.0 step.0.0.1 g in Returned m run.0.2 run.1)
        (sym (only_handle step.0.1 one.no_terminal))
        (rounds-Returned rs step.0.0.0 step.0.0.1 m step.0.1.pam_handle os one.handle) in
    elim (Bool-cases (not ctx.running || is_exit ctx.state)) [
      | inl done ↦ rw done (quiet-Returned n h [] before refl)
      | inr going ↦ elim (Bool-cases (not (succeeded step.0.0.0) && is_exit step.0.0.1.state)) [
        | inl broken ↦ rw (going, broken) one
        | inr fine ↦ rw (going, fine) (append-Returned n step.0.1 more.0.2 step.1 more.1 one rest)
      ]
    ]

-- Over all rounds of the loop that begins with no terminal open and no PAM handle, if in each of
-- them the system undoes locks of the terminal: as many terminals are closed as opened, as many
-- locks undone as made, and `pam_end` is called as often as `pam_start` has succeeded. No terminal
-- is left, and a handle only if a `pam_start` has failed, which leaves it undefined.
pub run_rounds-Returned :
    (rs : List Round) (result : Code) (ctx : AppContext)
    → All IsOrderly rs
    → let run = run_rounds rs result ctx idle in Returned 0 run.0.2 run.1
run_rounds-Returned rs result ctx o = rounds-Returned rs result ctx 0 none o (inl refl)
