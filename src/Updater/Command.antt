-- ===== src/Updater/Command.antt =====
-- One command of a run: runOneCommand, pumpToRun and markFailed.
pub mod Defs
pub mod Rows
pub mod Pump
