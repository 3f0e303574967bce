-- ===== src/Schema.antt =====
-- schema.go: validation of a JSON document against a JSON Schema. `Json` has the decoded values,
-- `Refs` the references, `Checks` the errors and the way in which checks are put together, `Scalars`
-- the keywords that look at one value, `Nodes` those that validate further nodes, and `Strict` the
-- search for unsupported keywords. The others are named for what they prove.
pub mod Json
pub mod Refs
pub mod Checks
pub mod Scalars
pub mod Nodes
pub mod Strict
pub mod Settles
pub mod Meaning
mod Tests
