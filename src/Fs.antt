-- ===== src/Fs.antt =====
-- fs/: the layout of a partition, inodes on the disk, and the tables of open files.
pub mod Create
pub mod Cwd
pub mod Dir
pub mod File
pub mod Files
pub mod Format
pub mod Layout
pub mod Opened
pub mod Paths
pub mod Release
pub mod Remove
pub mod Inode
pub mod InodeLaws
mod Tests
