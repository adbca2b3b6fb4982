-- ===== src/Blob.antt =====
-- server/internal/blob/blob.go and tiered.go: the store of blobs on a local disk, with the staging
-- files of resumable uploads, and the store that puts a cold tier behind it.
pub mod Keys
pub mod Disk
pub mod Tiered
mod Examples
