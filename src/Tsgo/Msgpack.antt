-- ===== src/Tsgo/Msgpack.antt =====
-- source/fastlint/tsgo/msgpack.cc: the `[type, method, payload]` envelope of the server's pipe.
-- A buffer is a list of bytes; `at` is an index into it, as in the source. A read past the end
-- would give 0, and every read is behind the source's length test.
pub mod Stream
pub mod RoundTrip
mod Examples
use fastlint.Base.{
  ℕ, zero, suc, ◌+◌, ◌-◌, ◌*◌, ◌/◌, ◌%◌, not, ◌||◌, Option, none, some, [], ◌∷◌, ◌++◌, Bytes, ltb,
  leb, ◌==◌, if◌then◌else◌, length, get_or, take, drop,
}

abbrev pub fix_array3 : ℕ
fix_array3 = 0x93

abbrev pub uint8 : ℕ
uint8 = 0xCC

abbrev pub bin8 : ℕ
bin8 = 0xC4

abbrev pub bin16 : ℕ
bin16 = 0xC5

abbrev pub bin32 : ℕ
bin32 = 0xC6

-- What `setError` reports, with the byte that it prints.
pub data DecodeError : Type 0 where
  expected_bin expected_array expected_type unknown_type : ℕ → DecodeError

pub record Frame : Type 0 where
  pub type : ℕ
  pub method : Bytes
  pub payload : Bytes

-- `DecodeStatus` with what each status comes with: the frame and `consumed`, or the error.
pub data Decoded : Type 0 where
  complete : Frame → ℕ → Decoded
  incomplete : Decoded
  malformed : DecodeError → Decoded

-- The result of `readBin`: `start`, `size` and the new `at`.
pub data BinRead : Type 0 where
  found : ℕ → ℕ → ℕ → BinRead
  short : BinRead
  bad : DecodeError → BinRead

-- `uint8_t(n)` keeps the low eight bits.
pub bin_header : ℕ → Bytes
bin_header n =
    if ltb n 256
    then bin8 ∷ n % 256 ∷ []
    else if ltb n 65536
    then bin16 ∷ n / 256 % 256 ∷ n % 256 ∷ []
    else bin32 ∷ n / 16777216 % 256 ∷ n / 65536 % 256 ∷ n / 256 % 256 ∷ n % 256 ∷ []

pub append_bin : Bytes → Bytes
append_bin content = bin_header (length content) ++ content

-- The loop `size = (size << 8) | b[i]` over the bytes of a header. A byte is below 256, so that
-- `|` fills eight bits that are zero, as `+` does.
pub big_endian : Bytes → ℕ → ℕ → ℕ → ℕ
big_endian b i zero size = size
big_endian b i (suc rounds) size = big_endian b (i + 1) rounds (size * 256 + get_or b i 0)

-- `headerLen`, or `none` for a marker of no bin.
pub header_len : ℕ → Option ℕ
header_len marker =
    if marker == bin8
    then some 2
    else if marker == bin16
    then some 3
    else if marker == bin32
    then some 5
    else none

-- What follows once the header's length is known.
pub read_sized : Bytes → ℕ → ℕ → BinRead
read_sized b at header =
    let start = at + header in
    let size = big_endian b (at + 1) (header - 1) 0 in
    if ltb (length b) (at + header)
    then short
    else if ltb (length b) (start + size)
    then short
    else found start size (start + size)

pub read_bin : Bytes → ℕ → BinRead
read_bin b at =
    let marker = get_or b at 0 in
    if ltb (length b) (at + 1) then short else elim (header_len marker) [
      | none ↦ bad (expected_bin marker)
      | some header ↦ read_sized b at header
    ]

-- The type byte is a fixint, or behind a marker where it is above 0x7F.
unfoldable pub encode_frame : ℕ → Bytes → Bytes → Bytes
encode_frame type method payload =
    let t = type % 256 in
    fix_array3
    ∷ ((if ltb 0x7F t then uint8 ∷ t ∷ [] else t ∷ []) ++ (append_bin method ++ append_bin payload))

-- The bytes from `start`, as the two copying loops read them.
pub slice : Bytes → ℕ → ℕ → Bytes
slice b start size = take size (drop start b)

-- The second bin, and the frame.
pub read_payload : Bytes → ℕ → Bytes → BinRead → Decoded
read_payload b type method short = incomplete
read_payload b type method (bad e) = malformed e
read_payload b type method (found start size at) =
    complete (record { type = type; method = method; payload = slice b start size }) at

pub read_method : Bytes → ℕ → BinRead → Decoded
read_method b type short = incomplete
read_method b type (bad e) = malformed e
read_method b type (found start size at) = read_payload b type (slice b start size) (read_bin b at)

-- The range test on the message type, `Request` to `Call`.
pub read_body : Bytes → ℕ → ℕ → Decoded
read_body b type at =
    if ltb type 1 || ltb 6 type
    then malformed (unknown_type type)
    else read_method b type (read_bin b at)

unfoldable pub decode_frame : Bytes → Decoded
decode_frame b =
    let first = get_or b 0 0 in
    let type_byte = get_or b 1 0 in
    if ltb (length b) 2
    then incomplete
    else if not (first == fix_array3)
    then malformed (expected_array first)
    else if leb type_byte 0x7F
    then read_body b type_byte 2
    else if type_byte == uint8
    then (if ltb (length b) 3 then incomplete else read_body b (get_or b 2 0) 3)
    else malformed (expected_type type_byte)
