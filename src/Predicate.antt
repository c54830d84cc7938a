-- ===== src/Predicate.antt =====
-- The structured study editor: a registry of columns, operators and operands, the compiler from
-- opaque identifiers to SQL, and the catalog that the browser sees (internal/predicate).
pub mod Registry
pub mod Matrix
pub mod Compile
pub mod Vocabulary
pub mod Meaning
pub mod Valid
pub mod Catalog
pub mod Offered
pub mod Ordered
