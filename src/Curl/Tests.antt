-- ===== src/Curl/Tests.antt =====
-- The write callback of utils.cpp at two pieces.
