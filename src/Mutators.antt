-- ===== src/Mutators.antt =====
-- lib/Mutators: the mutators and the factory that makes them.
mod Tests
pub mod Kind
pub mod Irm
pub mod Trivial
pub mod Arithmetic
pub mod Bitwise
pub mod Relational
pub mod Number
pub mod Special
pub mod Factory
pub mod Logical
