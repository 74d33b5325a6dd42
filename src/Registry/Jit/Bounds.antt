-- ===== src/Registry/Jit/Bounds.antt =====
-- The grant that a just-in-time request adds.
