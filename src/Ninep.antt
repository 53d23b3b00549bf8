-- ===== src/Ninep.antt =====
-- 9P messages (libc/convS2M.c, libc/convM2S.c) and directory entries (libc/convD2M.c,
-- libc/convM2D.c) between their records and their bytes.
pub mod Wire
pub mod Fcall
pub mod Dir
pub mod Encode
pub mod Decode
pub mod Spec
pub mod Size
pub mod RoundTrip
pub mod Local
pub mod Message
pub mod Yields
pub mod Decoded
pub mod Limits
pub mod Stream
mod Tests
