-- ===== src/Component.antt =====
-- internal/component: references to VM components and how they become local files.
-- `ParseRef` is `parse_ref`, `Abs` is `abs_path` and `Resolver.Resolve` is `resolve`.
mod Refs
mod Resolver
pub mod Kinds
pub mod Resolving
mod Tests
unfoldable pub use Refs.*
unfoldable pub use Resolver.*
