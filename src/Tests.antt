-- ===== src/Tests.antt =====
-- Concrete inputs for the theorems on the programs.
pub mod Data
mod Shapes
mod Grids
mod Blocks
mod Keys
mod Games
mod Screens
mod Shells
mod Jumps
mod Animations
mod Loopbacks
