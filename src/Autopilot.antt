-- ===== src/Autopilot.antt =====
-- ops/system/project_autopilot.py with ops/lib/aiops_remote_helpers.py: it triggers an action on the
-- console, polls its run to an end, finds the proof that the run left, and alerts.
pub mod Remote
pub mod Resolve
pub mod Interval
pub mod Poll
pub mod Alert
mod Samples
