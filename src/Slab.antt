-- ===== src/Slab.antt =====
-- The slabs that hold an image's drops: limnifs-core/src/slab.rs, drop_record.rs
-- slab_reader.rs and slab_store.rs.
pub mod Header
pub mod Record
pub mod Reader
pub mod Store
