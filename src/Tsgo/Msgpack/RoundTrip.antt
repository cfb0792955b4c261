-- ===== src/Tsgo/Msgpack/RoundTrip.antt =====
-- source/fastlint/tsgo/msgpack.cc: `decodeFrame` after `encodeFrame`.
use fastlint.Base.{
  append-nil, length-take, ◌⊎◌, ℕ, ◌+◌, ◌^◌, ◌≤◌, ◌<◌, ◌≡◌, ◌≢◌, refl, sym, [], ◌∷◌, ◌++◌,
  append_assoc, arith, Bytes, length, take, drop, length-append, get_or-append_right,
  drop-length-append, take-length-append, inl, inr, take-append-drop,
}
use fastlint.Tsgo.Msgpack.{
  fix_array3, Decoded, complete, incomplete, malformed, found, bin_header, append_bin, big_endian,
  header_len, read_sized, read_bin, slice, read_payload, read_method, read_body, encode_frame,
  decode_frame,
}
use fastlint.Tsgo.Msgpack.Stream.{decode_frame-append, decode_frame_bounds}

-- Reading a bin that stands behind any bytes, and before any.
read_bin-append_bin :
    (pre content rest : Bytes)
    → length content < 2 ^ 32
    → read_bin (pre ++ (append_bin content ++ rest)) (length pre)
      ≡ found
          (length pre + length (bin_header (length content)))
          (length content)
          (length (pre ++ append_bin content))
unfolding read_bin append_bin bin_header read_sized header_len big_endian
read_bin-append_bin pre content rest h =
    let n = length content in
    let b = pre ++ (append_bin content ++ rest) in
    let tail = append_bin content ++ rest in
    ground (
      arith,
      length-append pre tail,
      length-append pre (append_bin content),
      length-append content rest,
      get_or-append_right pre tail (length pre) 0 0,
      get_or-append_right pre tail (length pre + 1) 1 0,
      get_or-append_right pre tail (length pre + 1 + 1) 2 0,
      get_or-append_right pre tail (length pre + 1 + 1 + 1) 3 0,
      get_or-append_right pre tail (length pre + 1 + 1 + 1 + 1) 4 0,
    )

slice_middle : (pre mid rest : Bytes) → slice (pre ++ (mid ++ rest)) (length pre) (length mid) ≡ mid
unfolding slice
slice_middle pre mid rest = rw (drop-length-append pre (mid ++ rest)) (take-length-append mid rest)

slice-append_bin :
    (pre content rest : Bytes)
    → slice
        (pre ++ (append_bin content ++ rest))
        (length pre + length (bin_header (length content)))
        (length content)
      ≡ content
unfolding append_bin
slice-append_bin pre content rest =
    let header = bin_header (length content) in
    rw (append_assoc header content rest, ← append_assoc pre header (content ++ rest))
      (rw (← length-append pre header) (slice_middle (pre ++ header) content rest))

module _ (pre method payload rest : Bytes) (small_method : length method < 2 ^ 32)
    (small_payload : length payload < 2 ^ 32) where
  abbrev buffer : Bytes
  buffer = pre ++ (append_bin method ++ (append_bin payload ++ rest))

  abbrev split : Bytes
  split = (pre ++ append_bin method) ++ (append_bin payload ++ rest)

  buffer-split : buffer ≡ split
  buffer-split = sym (append_assoc pre (append_bin method) (append_bin payload ++ rest))

  read_body-buffer :
      (type : ℕ)
      → 1 ≤ type
      → type ≤ 6
      → read_body buffer type (length pre)
        ≡ complete
            (record { type = type; method = method; payload = payload })
            (length ((pre ++ append_bin method) ++ append_bin payload))
  unfolding read_body read_method read_payload
  read_body-buffer type low high = ground (
    arith,
    read_bin-append_bin pre method (append_bin payload ++ rest),
    slice-append_bin pre method (append_bin payload ++ rest),
    read_bin-append_bin (pre ++ append_bin method) payload rest,
    slice-append_bin (pre ++ append_bin method) payload rest,
    buffer-split,
  )

-- A frame of a known message type, with a method and a payload of less than 2^32 bytes each, is
-- decoded from its encoding with exactly its own bytes consumed, whatever bytes follow it.
pub decode_frame-encode_frame :
    (type : ℕ) (method payload rest : Bytes)
    → 1 ≤ type
    → type ≤ 6
    → length method < 2 ^ 32
    → length payload < 2 ^ 32
    → decode_frame (encode_frame type method payload ++ rest)
      ≡ complete
          (record { type = type; method = method; payload = payload })
          (length (encode_frame type method payload))
unfolding decode_frame encode_frame
decode_frame-encode_frame type method payload rest low high hm hp = ground (
  arith,
  append_assoc (append_bin method) (append_bin payload) rest,
  read_body-buffer (fix_array3 ∷ type ∷ []) method payload rest hm hp type low high,
)

Decoded-cases : (r : Decoded) → (r ≡ incomplete) ⊎ (r ≢ incomplete)
Decoded-cases (complete f n) = inr (cc)
Decoded-cases incomplete = inl refl
Decoded-cases (malformed e) = inr (cc)

-- Of the encoding of a frame of a known message type, with a method and a payload of less than 2^32
-- bytes each, every shorter front part is reported as incomplete: never as another frame and never as
-- malformed.
pub decode_frame-take :
    (type : ℕ) (method payload : Bytes) (n : ℕ)
    → 1 ≤ type
    → type ≤ 6
    → length method < 2 ^ 32
    → length payload < 2 ^ 32
    → n < length (encode_frame type method payload)
    → decode_frame (take n (encode_frame type method payload)) ≡ incomplete
decode_frame-take type method payload n low high hm hp h =
    let whole = encode_frame type method payload in
    elim (Decoded-cases (decode_frame (take n whole))) [
      | inl e ↦ e
      | inr settled ↦ absurd (
          ground (
            arith,
            decode_frame-append (take n whole) (drop n whole) settled,
            take-append-drop n whole,
            append-nil whole,
            decode_frame-encode_frame type method payload [] low high hm hp,
            λ (e : decode_frame (take n whole)
                  ≡ complete (record { type = type; method = method; payload = payload })
                      (length whole)).
                decode_frame_bounds (take n whole) e,
            length-take n whole,
          ))
    ]
