-- ===== src/Dstore/RoundTrip.antt =====
-- Files through `processFile` of internal/dstore/dstore.go and back through `restoreChunked`.
mod Placed
pub mod Fetched
mod Chunks
mod Loop
pub mod Whole
pub mod Output
pub mod Stub
pub mod Missing
pub mod Exact
pub mod Remote
