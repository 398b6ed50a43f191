-- ===== src/Data.antt =====
-- The containers of the program's runtime that the model needs.
pub mod Map
pub mod TextSet
pub mod Bytes
pub mod Bits
pub mod Sorting
pub mod Decimal
pub mod Integer
