-- ===== src/Tree.antt =====
-- The file tree of an image: limnifs-core/src/directory_node.rs and inode.rs.
pub mod Directory
pub mod Inode
