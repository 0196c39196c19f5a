-- ===== src/Json.antt =====
-- The values of the language that the program handles as JSON, and their canonical form.
pub mod Values
pub mod Canonical
pub mod Parse
pub mod Literal
pub mod Grammar
pub mod Steps
pub mod Reparse
pub mod Ordered
pub mod Canonicalized
pub mod Joined
pub mod Trip
pub mod Order
pub mod Members
pub mod Strict
pub mod Total
mod Tests
unfoldable pub use Values.*
