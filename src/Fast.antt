-- ===== src/Fast.antt =====
-- The FAST protocol: lib/proto/fast_message.c and include/libtrading/proto/fast_message.h.
pub mod Samples
pub mod Codec
pub mod Pmap
pub mod Field
pub mod Integer
pub mod Text
pub mod Vector
pub mod Decimal
pub mod Message
pub mod Session
pub mod Book
