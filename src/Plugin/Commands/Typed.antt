-- ===== src/Plugin/Commands/Typed.antt =====
-- What a typed delay does.
