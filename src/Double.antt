-- ===== src/Double.antt =====
-- `double`: the operations that the code uses, as an interface, and the facts of IEEE 754 binary64
-- that its correctness rests on. A NaN is a value that is not `<=` itself.
mod Laws
pub mod Milli
pub use Laws.*
