-- ===== src/Controller/Autologin.antt =====
-- The automatic login of src/controller.c keeps what holds in its state.
use mathlib.Core.List.{Memᴰ}
use kia.Base.{
  ◌<◌, ◌≡◌, refl, ap, sym, ◌∙◌, Bool, true, false, not, ◌&&◌, ◌||◌, List, ◌∷◌, some, length, ℤ, ltb,
  leb, ◌==◌, if◌then◌else◌, arith, Bool-cases, inl, inr,
}
use mathlib.Core.Bool.{true≢false}
use kia.Text.{Bytes, cstr, is_empty, copy_string}
use kia.Text.Buffers.{cstr-IsText, cstr-copy_string_fits}
use kia.Effect.{Eff, pure}
use kia.Config.{name_size}
use kia.Session.Start.{found, unknown_user, unreadable, UserEntry, Passwd}
use kia.Controller.{
  state_check_autologin, AppContext, Round, out_of_range, user_exists, user_known,
  find_default_session,
}
use kia.Controller.Handlers.{handle_check_autologin, autologin_checked, autologin_known}
use kia.Controller.Stages.{by_config, Stage, IsStaged}
use kia.Controller.Keeps.{in_range}

module _ (rs : List Round) (r : Round) where
  user_known-found :
      (user : Bytes) (e : UserEntry)
      → r.getpwnam user ≡ e
      → (user_known e).0 ≡ true
      → (pw : Passwd) × (r.getpwnam user ≡ found pw)
  unfolding user_known
  user_known-found user (found pw) h known = (pw, h)
  user_known-found user unknown_user h known = absurd (true≢false (sym known))
  user_known-found user unreadable h known = absurd (true≢false (sym known))

  unguarded :
      (a b : Bool) (m : Eff Bool)
      → (if a then pure false else if b then pure false else m).0 ≡ true
      → m.0 ≡ true
  unguarded true b m h = absurd (true≢false (sym h))
  unguarded false true m h = absurd (true≢false (sym h))
  unguarded false false m h = h

  user_exists-found :
      (user : Bytes)
      → (user_exists r.getpwnam (some user)).0 ≡ true
      → (pw : Passwd) × (r.getpwnam user ≡ found pw)
  unfolding user_exists
  user_exists-found user known =
      user_known-found user (r.getpwnam user) refl
        (unguarded (is_empty user) (ltb 255 (length user)) (user_known (r.getpwnam user)) known)

  autologin_checked-IsStaged :
      (ctx : AppContext) (selected : ℤ) (pw : Passwd)
      → Stage state_check_autologin rs ctx
      → ctx.config.autologin_enabled ≡ true
      → length (cstr ctx.config.autologin_user) < name_size
      → r.getpwnam (cstr ctx.config.autologin_user) ≡ found pw
      → IsStaged (r ∷ rs) (autologin_checked r (cstr ctx.config.autologin_user) ctx selected).0.1
  unfolding autologin_checked Stage
  autologin_checked-IsStaged ctx selected pw (f, h) enabled short known =
      elim (Bool-cases (out_of_range selected ctx.sessions.count)) [
        | inl bad ↦ rw bad h
        | inr good ↦ rw good (record {
          ready = h;
          selected = in_range ctx.sessions selected good;
          cleared = f.cleared;
          granted_to =
              by_config r pw (Memᴰ.head refl) enabled (sym copied) (ap r.getpwnam copied ∙ known);
        })
      ]
    where
      copied :
          cstr (copy_string name_size ctx.username (cstr ctx.config.autologin_user))
          ≡ cstr ctx.config.autologin_user
      copied =
          cstr-copy_string_fits name_size ctx.username (cstr ctx.config.autologin_user) short
            f.user_sized (cstr-IsText ctx.config.autologin_user)

  pub handle_check_autologin-IsStaged :
      (ctx : AppContext)
      → Stage state_check_autologin rs ctx
      → IsStaged (r ∷ rs) (handle_check_autologin r ctx).0.1
  unfolding handle_check_autologin autologin_known Stage
  handle_check_autologin-IsStaged ctx h =
      let user = cstr ctx.config.autologin_user in
      elim (Bool-cases (ctx.config.autologin_enabled && not (is_empty user))) [
        | inr off ↦ rw off h.1
        | inl on ↦ elim (Bool-cases (length user == 0 || leb name_size (length user))) [
          | inl odd ↦ rw (on, odd) h.1
          | inr fits ↦ elim (Bool-cases (user_exists r.getpwnam (some user)).0) [
            | inr missing ↦ rw (on, fits, missing) h.1
            | inl exists ↦
                let (pw, known) = user_exists-found user exists in
                rw (on, fits, exists)
                  (autologin_checked-IsStaged ctx
                    (find_default_session (some ctx.sessions)
                      (some (cstr ctx.config.default_session))).0
                    pw h (ground arith) (ground arith) known)
          ]
        ]
      ]
