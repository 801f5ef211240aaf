-- ===== src/Decimal.antt =====
-- The arithmetic of `decimal.Decimal` and of `float`, both as one parameter. The operations stand in
-- Decimal/Defs.antt, what is assumed of them in `IsExact`: the laws of exact arithmetic in an ordered
-- ring, with a division that is exact or rounds down, and monotone roundings. The rounding of the
-- 28-digit decimal context and of binary floating point is not modelled.
mod Defs
mod Laws
mod Sums
mod Bounds
pub mod Int
pub use Defs.*
pub use Sums.*
pub use Bounds.*
pub use Laws.*
