-- ===== src/Fs.antt =====
-- fs/: the buffer cache, pipes, descriptors, inodes, directories, files and mounts.
mod Tests
mod NameTests
pub mod Buffer
pub mod Pipe
pub mod Files
pub mod Structs
pub mod Bitmap
pub mod State
pub mod Truncate
pub mod Inode
pub mod Namei
pub mod Data
pub mod ReadWrite
pub mod Open
pub mod Super
pub mod Stat
pub mod Ioctl
pub mod Exec
