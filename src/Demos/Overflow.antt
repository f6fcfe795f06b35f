-- ===== src/Demos/Overflow.antt =====
-- 01_buffer_overflow.c and 01_buffer_overflow_fixed.c: a message is parsed whose length field the sender
-- chooses. Memory is a function from offsets to bytes; the machine is little-endian.
pub mod Bounds
use secure_ci_coding.Base.{
  ℕ, zero, suc, List, [], ◌∷◌, ◌+◌, ◌*◌, ◌%◌, ◌^◌, min, Bool, true, false, Option, none, some,
  Bytes, ltb, leb, if◌then◌else◌, length, take, word32, u32_mod, codes,
}
use secure_ci_coding.Common.{Build, vulnerable, fixed}
use secure_ci_coding.Auth.{int_bytes}
use secure_ci_coding.Session.Token.{Buffer, blank, write_byte, write_bytes, window}

abbrev pub filename_max : ℕ
filename_max = 32

abbrev pub hdr_size : ℕ
hdr_size = 14

-- Whether 0 is returned, the array `filename`, and the end of what is read of the message.
pub record Parsed : Type 0 where
  pub accepted : Bool
  pub filename : Buffer
  pub read_to : ℕ

-- `memcpy(&data_len, raw + 10, 4)`
abbrev pub data_len_of : (ℕ → ℕ) → ℕ
data_len_of raw = word32 (raw 13) (raw 12) (raw 11) (raw 10)

abbrev copied : ℕ → (ℕ → ℕ) → Buffer
copied n raw = write_bytes 0 (window n hdr_size raw) blank

unfoldable pub parse_message_vuln : (raw : ℕ → ℕ) → (len : ℕ) → Parsed
parse_message_vuln raw len =
    let data_len = data_len_of raw in
    if ltb len hdr_size
    then record { accepted = false; filename = blank; read_to = 0 }
    else if ltb 1024 data_len
    then record { accepted = false; filename = blank; read_to = hdr_size }
    else record { accepted = true; filename = copied data_len raw; read_to = hdr_size + data_len }

unfoldable pub parse_message_fixed : (raw : ℕ → ℕ) → (len : ℕ) → Parsed
parse_message_fixed raw len =
    let data_len = data_len_of raw in
    if ltb len hdr_size
    then record { accepted = false; filename = blank; read_to = 0 }
    else if leb filename_max data_len
    then record { accepted = false; filename = blank; read_to = hdr_size }
    else if ltb len ((hdr_size + data_len) % u32_mod)
    then record { accepted = false; filename = blank; read_to = hdr_size }
    else record {
      accepted = true;
      filename = write_byte data_len 0 (copied data_len raw);
      read_to = hdr_size + data_len;
    }

abbrev pub parse_message : Build → (raw : ℕ → ℕ) → (len : ℕ) → Parsed
parse_message vulnerable raw len = parse_message_vuln raw len
parse_message fixed raw len = parse_message_fixed raw len

-- What `main` makes of its argument: the packet, where the memory behind `memset` is 0.
abbrev pub packet_of : Bytes → Buffer
packet_of arg =
    let n = min (length arg) 1024 in
    write_bytes 14 (take n arg) (
      write_bytes 10 (int_bytes n)
        (write_byte 9 1 (write_byte 5 3 (write_byte 3 ((n + 14) % 256) blank))))

-- `main` with an argument.
unfoldable pub parse_argument : Build → Bytes → Parsed
parse_argument b arg = parse_message b (packet_of arg).at (14 + min (length arg) 1024)

-- A packet without its first fields.
abbrev plain_packet : Bytes → Buffer
plain_packet text = write_bytes 14 text (write_bytes 10 (int_bytes (length text)) blank)

abbrev letters : ℕ → Bytes
letters zero = []
letters (suc n) = b'A' ∷ letters n

-- What `main` parses, in order, with and without an argument.
unfoldable main_parses : Build → Option Bytes → List Parsed
main_parses b (some arg) = parse_argument b arg ∷ []
main_parses vulnerable none =
    parse_message vulnerable (plain_packet (codes "test.txt")).at (14 + 8) ∷ []
main_parses fixed none =
    parse_message fixed (plain_packet (codes "test.txt")).at (14 + 8)
    ∷ parse_message fixed (plain_packet (letters 64)).at (14 + 64)
    ∷ []
