-- ===== src/Devops.antt =====
-- The devops package: the operations of an administrator on a dongle.
pub mod Watch
pub mod Service
pub mod Reboot
pub mod Usage
