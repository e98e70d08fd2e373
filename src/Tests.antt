-- ===== src/Tests.antt =====
-- Tests of the definitions, and the theorems at concrete inputs.
mod ConfigFile
mod Login
mod Screens
mod Sessions
mod Program
mod Startup
mod Drawing
mod Rounds
mod Whole
