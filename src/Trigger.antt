-- ===== src/Trigger.antt =====
-- src/trigger.c: the directories that a transaction touches, and the trigger scripts that are run for
-- them. `fnmatch`, the listing of the directory and what exists on the disk are parameters.
pub mod Ctx
pub mod Entries
pub mod Run
pub mod Dirs
pub mod Matching
pub mod Groups
pub mod Scripts
mod Tests
