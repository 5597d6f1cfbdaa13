-- ===== src/Cron.antt =====
-- The editor of a crontab: components/CronEntryDialog.tsx and pages/CronJobs.tsx.
pub mod Entry
pub mod Dialog
pub mod Page
mod Tests
