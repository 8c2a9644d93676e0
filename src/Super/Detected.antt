-- ===== src/Super/Detected.antt =====
-- The checksum of the superblock shows that one of its bytes has changed.
