-- ===== src/Demos.antt =====
-- src/vulnerable and src/fixed: ten small programs, each in two versions, that show a weakness and its
-- remedy apart from the server. Each module models both files of one weakness; where both declare a
-- function of one name that differs, the model's names tell them apart by the file.
pub mod Overflow
pub mod Logging
pub mod Lifetime
pub mod Release
pub mod Storing
pub mod Input
pub mod Command
pub mod Traversal
pub mod Tokens
pub mod Hashing
