-- ===== src/Rotate.antt =====
-- The rotate package: the policy of a rotation, the run that changes the public address of a dongle,
-- and how its result is recorded.
pub mod Policy
pub mod Carrier
pub mod Run
pub mod Request
pub mod Finish
