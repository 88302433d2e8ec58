-- ===== src/Terminal.antt =====
-- apps/agent/src/tmux.js: the reads of a terminal's transcript, by cursors and pages.
pub mod Cursors
pub mod CursorText
pub mod Status
pub mod Pages
pub mod Lengths
pub mod Served
pub mod Reads
