-- ===== src/Cron.antt =====
-- Cron expressions: pkg/cron/parser.go and the schedules of pkg/cron/schedule.go that need no calendar.
pub mod Bits
pub mod Text
pub mod Fields
pub mod Spec
pub mod Parse
pub mod Calendar
pub mod Next
mod Examples
