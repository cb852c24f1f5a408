-- ===== src/Llm.antt =====
-- src/llm: the model router, its error classes, its budget and its cost guard, and the review gate.
-- A price is in cents for a million tokens and a cost in units of 10^-8 dollars, so that
-- `tokens / 1_000_000 * price` is the exact product; the rounding of floats is not modelled.
pub mod Types
pub mod Transient
pub mod Budget
pub mod Guard
pub mod Router
mod Samples
