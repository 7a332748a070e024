-- ===== src/Common.antt =====
-- Assignment2/a2_common.c, the helpers of both parts of the second assignment.
pub mod Hex
pub mod Io
pub mod Crypto
pub mod Files
