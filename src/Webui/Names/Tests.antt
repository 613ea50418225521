-- ===== src/Webui/Names/Tests.antt =====
-- An instance of the theorem.
