-- ===== src/Brain.antt =====
-- ops/system/brain_loop.py with ops/lib/notification_router.py, notifier.py and autonomy_mode.py: a
-- loop that watches the doctors' verdict and alerts when it changes. One run takes the state that the
-- last one left; what it has sent is kept as a log.
pub mod Checks
pub mod Notifier
pub mod Router
pub mod Matrix
pub mod Loop
pub mod Autonomy
mod Samples
