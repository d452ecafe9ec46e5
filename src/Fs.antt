-- ===== src/Fs.antt =====
-- The FUSE operations of mqttfs_*.c that make, find, read, write and remove entries. A path is the
-- C string that FUSE passes, with its leading separator; a handle is the address that `fi->fh` keeps.
-- The mutex makes each operation one step; its answer is an argument.
pub mod Make
pub mod Open
pub mod Data
pub mod Remove
pub mod Rename
