-- ===== src/Cas.antt =====
-- server/internal/cas: content-addressed storage. `Codec` has the per-chunk policy and the keys,
-- `Store` the tables and the delta protocol, `Reader` the seekable reader, `Write` the upload that the server cuts, `Collect` the garbage
-- collector's statements.
pub mod Codec
pub mod Store
pub mod Keys
pub mod Addressed
pub mod Commit
pub mod Write
pub mod Collect
pub mod Reader
mod Examples
