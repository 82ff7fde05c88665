-- ===== src/Types.antt =====
-- types/index.ts, passed on from four children; auth/types.ts and event-set/types.ts are Auth and EventSets.
mod Salesforce
mod Events
mod Canonical
mod Payload
pub mod Auth
pub mod EventSets
pub use Salesforce.*
unfoldable pub use Events.*
pub use Canonical.*
pub use Payload.*
