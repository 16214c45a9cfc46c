-- ===== src/Circuit.antt =====
-- system/pkg/zkp/dynamic_circuit.go and value_conversion.go: the circuit of a schema, the
-- assignment of its inputs, and the assertions of its constraints.
pub mod Values
pub mod Build
pub mod Indices
pub mod Assign
pub mod Define
pub mod Meaning
pub mod Comparisons
pub mod Adult
pub mod Samples
mod ConstraintTests
mod Tests
