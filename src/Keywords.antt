-- ===== src/Keywords.antt =====
-- src/sp_config_keywords.c: the rules of the configuration, one handler each.
pub mod Enable
pub mod Switches
pub mod Global
pub mod Cookies
pub mod FunctionTable
pub mod Functions
pub mod IniRules
pub mod Root
