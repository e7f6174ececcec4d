-- ===== src/Cache.antt =====
-- commonheaders.h: the persistent hash table in which the client keeps, under the hash of a path,
-- the server's modification time of the cached copy, or the mark of a copy that was written to.
pub mod Hash
pub mod Table
pub mod Valid
pub mod Lookup
pub mod Invariant
pub mod Decimal
pub mod Database
pub mod Refinement
