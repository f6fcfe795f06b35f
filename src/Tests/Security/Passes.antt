-- ===== src/Tests/Security/Passes.antt =====
-- Which checks of tests/test_security.c pass, in the two builds.
