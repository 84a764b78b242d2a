-- ===== src/Store.antt =====
-- The store package: the tables of the database as lists of rows, and each repository method as the
-- SQL statements that it executes. A statement that the database refuses changes nothing.
pub mod Operations
pub mod Rotations
pub mod Slots
pub mod Usage
