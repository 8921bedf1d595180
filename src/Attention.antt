-- ===== src/Attention.antt =====
-- Attention in src/sw/project/dav2_engine.c.
pub mod Softmax
pub mod Row
pub mod Normalise
pub mod Halves
pub mod Shift
pub mod Products
pub mod Cutoff
pub mod Probabilities
pub mod Rows
pub mod Sums
pub mod ColumnSums
pub mod Tests
