-- ===== src/Fix.antt =====
-- The FIX protocol: lib/proto/fix_message.c and lib/proto/fix_session.c with their headers.
pub mod Scan
pub mod Kind
pub mod Field
pub mod Message
pub mod Text
pub mod Session
pub mod Tests
pub mod Protocol
