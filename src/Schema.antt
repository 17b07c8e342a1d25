-- ===== src/Schema.antt =====
-- db/schema.ts: the tables that the modelled operations touch, and the database that a
-- transaction sees.
mod Status
mod Config
pub mod Qualification
mod Tables
mod Queries
pub use Status.*
pub use Config.*
unfoldable pub use Tables.*
unfoldable pub use Queries.*
pub use Queries.Laws.*
