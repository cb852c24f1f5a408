-- ===== src/Hostd.antt =====
-- ops/openclaw_hostd.py: the host executor, which runs allowlisted actions for the console, and
-- ops/rootd_client.py, through which it reaches rootd. What a request leaves is a list of deeds.
pub mod Token
pub mod Registry
pub mod Secrets
pub mod Action
pub mod Client
pub mod Backtest
pub mod Service
pub mod Server
mod Samples
