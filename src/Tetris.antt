-- ===== src/Tetris.antt =====
-- The Tetris game under 4-soc/csrc/tetris: its types, the shape tables, the bag of shapes, the grid and
-- the moving block, the full lines, the keyboard, the game, the main loop, the drawing, the
-- printing and the memory functions.
pub mod Types
pub mod Shape
pub mod Bag
pub mod Grid
pub mod Lines
pub mod Block
pub mod Keys
pub mod Game
pub mod Main
pub mod Draw
pub mod Digits
pub mod Print
pub mod Memory
