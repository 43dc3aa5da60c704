-- ===== src/Stack.antt =====
-- The bounded stacks of algorithm/stack and exam/haier, and what their clients may rely on.
pub mod Lifo
pub mod Api
pub mod Steps
pub mod Seq
pub mod Fixed
mod Tests
