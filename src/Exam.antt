-- ===== src/Exam.antt =====
-- The programs under exam/ that compute on arrays; the bracket counter of exam/haier is in Bracket.
pub mod Duplicate
pub mod InPlace
pub mod MergeArray
pub mod FindInMatrix
pub mod PathLen
pub mod MatrixProduct
mod Tests
