-- ===== src/Transcript.antt =====
-- scripts/transcript-segments.mjs, scripts/transcript-capture.mjs and what apps/agent/src/tmux.js reads
-- of a transcript: one file, or a chain of numbered files of one size.
pub mod Segments
pub mod Layout
pub mod Parts
pub mod Reading
pub mod Capture
pub mod Names
pub mod Files
pub mod Inventories
pub mod Recovered
pub mod Contents
pub mod Fresh
pub mod Progress
pub mod Opening
pub mod Passes
pub mod Loops
pub mod Outcome
pub mod Beginning
pub mod Scarcity
pub mod Captured
pub mod Stored
