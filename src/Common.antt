-- ===== src/Common.antt =====
-- include/common.h and include/protocol.h: the constants, enumerations and structures that the
-- modules of the server share.
use secure_ci_coding.Base.{ℕ, ◌*◌}

-- The two builds of the Makefile: `-DVULNERABLE` and `-DFIXED`.
pub data Build : Type 0 where
  vulnerable fixed : Build

abbrev pub max_username_len : ℕ
max_username_len = 64

abbrev pub max_password_len : ℕ
max_password_len = 128

abbrev pub max_filename_len : ℕ
max_filename_len = 256

abbrev pub max_path_len : ℕ
max_path_len = 512

abbrev pub max_config_line : ℕ
max_config_line = 1024

abbrev pub session_token_len : ℕ
session_token_len = 64

abbrev pub net_buffer_size : ℕ
net_buffer_size = 4096

abbrev pub max_connections : ℕ
max_connections = 32

abbrev pub session_timeout_sec : ℕ
session_timeout_sec = 1800

abbrev pub max_payload_size : ℕ
max_payload_size = 16 * 1024 * 1024

abbrev pub user_db_max : ℕ
user_db_max = 256

abbrev pub proto_hdr_len : ℕ
proto_hdr_len = 14

abbrev pub proto_result_max : ℕ
proto_result_max = 512

pub data Role : Type 0 where
  admin user guest : Role

pub data OpType : Type 0 where
  login logout upload download delete list backup : OpType

-- The wire value of an operation.
abbrev pub op_code : OpType → ℕ
op_code login = 0x0001
op_code logout = 0x0002
op_code upload = 0x0003
op_code download = 0x0004
op_code delete = 0x0005
op_code list = 0x0006
op_code backup = 0x0007

pub data LogLevel : Type 0 where
  debug info warn error : LogLevel

pub data ResultCode : Type 0 where
  ok err_format err_length err_opcode err_session err_auth err_perm err_io : ResultCode

-- A C `int`: `negsuc n` is -(n + 1).
pub data ℤ : Type 0 where
  pos : ℕ → ℤ
  negsuc : ℕ → ℤ

-- What the language leaves undefined, recorded where the code does it.
pub data Fault : Type 0 where
  null_dereference use_after_free double_free buffer_overflow : Fault
