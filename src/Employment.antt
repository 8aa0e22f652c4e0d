-- ===== src/Employment.antt =====
-- `employment/employment.go`: the job lifecycle messages.
pub mod Assignment
pub mod Decline
pub mod JobReport
