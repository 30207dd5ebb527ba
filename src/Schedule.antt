-- ===== src/Schedule.antt =====
-- internal/scheduler and internal/scheduledrun: the cron calculations of Scheduled mode and the
-- metadata of scheduled runs. `Policies` parses a ScheduleSpec, `Slots` finds the latest due slot,
-- `RunNames` names the run of a slot, `Labels` is about those names, `Metadata` stamps and reads a run's
-- slot and sequence.
pub mod Policies
pub mod Slots
pub mod RunNames
pub mod Labels
pub mod Metadata
pub mod Tests
