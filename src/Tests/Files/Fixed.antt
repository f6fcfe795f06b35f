-- ===== src/Tests/Files/Fixed.antt =====
-- tests/test_file_handler.c on the fixed build.
use secure_ci_coding.FileHandler.Disk.{Disk}
