-- ===== src/Nyancat.antt =====
-- The animation of 4-soc/csrc/nyancat.c, and the compression of its frames by
-- scripts/gen-nyancat-data.py.
pub mod Decoder
pub mod Encoder
pub mod Opcode
pub mod Cells
pub mod Runs
pub mod Skips
pub mod Frame
pub mod Steps
pub mod Delta
pub mod Generator
pub mod Upload
pub mod Layout
pub mod Codes
pub mod Play
pub mod Tour
pub mod Packed
