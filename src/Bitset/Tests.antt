-- ===== src/Bitset/Tests.antt =====
-- Writes in range and past the end.
