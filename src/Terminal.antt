-- ===== src/Terminal.antt =====
-- src/terminal.c: the buffers between the program and the user's terminal, and the keys.
pub mod Output
pub mod Input
mod Tests
