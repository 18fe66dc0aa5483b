-- ===== src/Rules.antt =====
-- app/services/rules.py
pub mod Calendar
pub mod Streak
pub mod Play
pub mod Float
pub mod Gate
pub mod Reward
mod Tests
