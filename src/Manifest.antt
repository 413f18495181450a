-- ===== src/Manifest.antt =====
-- internal/manifest/manifest.go: what a stub file says, and the checks on making and reading one.
mod Types
pub mod Path
mod Checks
pub mod RoundTrip
pub mod Accepted
unfoldable pub use Types.*
unfoldable pub use Checks.*
