-- ===== src/Fix/Protocol/Alive.antt =====
-- fix_session_keepalive of tools/fix/fix_common.c over two calls.
