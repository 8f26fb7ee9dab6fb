-- ===== src/Diff.antt =====
-- internal/diff/parse.go: reading what `git diff` prints. Paths and lines are texts of code
-- points; a 64-bit `int` is kept as its two's complement bits.
pub mod Numstat
pub mod Patch
