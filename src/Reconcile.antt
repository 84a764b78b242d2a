-- ===== src/Reconcile.antt =====
-- The reconcile package: what one sweep sees, what it plans, and how it carries the plan out.
pub mod World
pub mod Action
pub mod Plan
pub mod Budgets
pub mod Generations
pub mod Actuator
