-- ===== src/Tests.antt =====
-- The theorems at concrete inputs, and runs of the code, one module for each part.
mod Manifest
mod Policy
mod Store
mod Cache
mod Inode
mod Reference
mod Seekable
mod Slab
mod Merkle
mod Epoch
