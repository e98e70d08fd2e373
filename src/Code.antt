-- ===== src/Code.antt =====
-- include/config.h: the return codes that every component shares.
use kia.Base.{Bool, true, false}

pub data Code : Type 0 where
  success error_config error_auth error_session error_system error_pam : Code

-- `result == KIA_SUCCESS`
abbrev pub succeeded : Code → Bool
succeeded success = true
succeeded _ = false
