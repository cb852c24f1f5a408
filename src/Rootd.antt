-- ===== src/Rootd.antt =====
-- ops/openclaw_rootd.py: the privileged helper. A request that passes the signature and the policy
-- runs one command; what it does to the host and what it audits are written down in a `World`.
pub mod Exec
pub mod Command
pub mod Server
mod Samples
