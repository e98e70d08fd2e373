-- ===== src/Session.antt =====
-- include/session.h: the sessions that can be started. The children hold src/session.c.
pub mod Desktop
pub mod Discover
pub mod Start
use kia.Base.{ℕ, Option}
use kia.Text.{Bytes}

-- `session_type_t`
pub data SessionType : Type 0 where
  session_x11 session_wayland : SessionType

-- `session_info_t`
pub record SessionInfo : Type 0 where
  pub name : Bytes
  pub exec : Bytes
  pub type : SessionType

abbrev pub exec_size : ℕ
exec_size = 512
