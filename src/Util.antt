-- ===== src/Util.antt =====
-- kernel/libutil: the data structures and the string functions that the whole kernel uses.
pub mod Bitmap
pub mod LinkedList
pub mod Strings
