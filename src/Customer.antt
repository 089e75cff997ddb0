-- ===== src/Customer.antt =====
-- customer: the routing contract of an application and its default hashes.
pub mod Keys
pub mod Library
pub mod Encoding
pub mod Hex
