-- ===== src/Tsgo/Msgpack/Examples.antt =====
-- Runs of source/fastlint/tsgo/msgpack.cc, and its theorems at concrete frames.
use fastlint.Base.{◌≡◌, refl, [], ◌∷◌, ◌++◌, arith, Bytes, codes, length, take}
use fastlint.Tsgo.Msgpack.{
  Frame, complete, incomplete, malformed, expected_bin, unknown_type, encode_frame, decode_frame,
  append_bin, bin_header, read_body, read_method, read_bin, header_len, read_sized, big_endian,
  read_payload, slice,
}
use fastlint.Tsgo.Msgpack.Stream.{decode_frame-append}
use fastlint.Tsgo.Msgpack.RoundTrip.{decode_frame-encode_frame, decode_frame-take}

abbrev echo : Bytes
echo = codes "echo"

abbrev body : Bytes
body = 1 ∷ 2 ∷ []

abbrev echo_frame : Frame
echo_frame = record { type = 1; method = echo; payload = body }

echo_bytes : encode_frame 1 echo body ≡ 0x93 ∷ 1 ∷ 0xC4 ∷ 4 ∷ (echo ++ 0xC4 ∷ 2 ∷ 1 ∷ 2 ∷ [])
unfolding encode_frame append_bin bin_header
echo_bytes = refl

unknown : decode_frame (0x93 ∷ 9 ∷ []) ≡ malformed (unknown_type 9)
unfolding decode_frame read_body read_method read_bin header_len
unknown = refl

not_a_bin : decode_frame (0x93 ∷ 1 ∷ 0x41 ∷ []) ≡ malformed (expected_bin 0x41)
unfolding decode_frame read_body read_method read_bin header_len
not_a_bin = refl

echo_decodes : decode_frame (encode_frame 1 echo body) ≡ complete echo_frame 12
unfolding decode_frame read_body read_method read_bin header_len read_sized big_endian read_payload
    slice encode_frame append_bin bin_header
echo_decodes = refl

decode_frame-append_example :
    decode_frame (encode_frame 1 echo body ++ codes "next")
    ≡ decode_frame (encode_frame 1 echo body)
decode_frame-append_example =
    decode_frame-append (encode_frame 1 echo body) (codes "next") (λ e. cc (echo_decodes, e))

decode_frame-encode_frame_example :
    decode_frame (encode_frame 1 echo body ++ codes "next")
    ≡ complete echo_frame (length (encode_frame 1 echo body))
decode_frame-encode_frame_example =
    decode_frame-encode_frame 1 echo body (codes "next") (omega arith) (omega arith) (omega arith)
      (omega arith)

decode_frame-take_example : decode_frame (take 7 (encode_frame 1 echo body)) ≡ incomplete
unfolding encode_frame append_bin bin_header
decode_frame-take_example =
    decode_frame-take 1 echo body 7 (omega arith) (omega arith) (omega arith) (omega arith)
      (omega arith)
