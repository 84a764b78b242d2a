-- ===== src/Domain.antt =====
-- The domain package: enumerations, slots and their derived names, the rows of the store.
pub mod Enums
pub mod Addr
pub mod Slot
pub mod Errors
pub mod Model
pub mod Ports
