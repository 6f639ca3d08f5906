-- ===== src/Input.antt =====
-- src/input.c: the keys of an interactive session. A child module has each part: the reads from the
-- channel, a bracketed paste, the user name, the pager and the keys. What is drawn on the terminal
-- is left out.
pub mod Channel
pub mod Paste
pub mod Username
pub mod Pager
pub mod Session
pub mod InsertMode
pub mod NormalMode
pub mod CommandMode
pub mod Lines
pub mod Keys
pub mod Typing
pub mod CommandLine
mod Tests
