-- ===== src/Boot.antt =====
-- boot/settings.py: the schedule of the periodic tasks, and what follows from it.
pub mod Schedule
pub mod Notices
mod Examples
