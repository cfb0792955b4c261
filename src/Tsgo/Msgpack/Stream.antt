-- ===== src/Tsgo/Msgpack/Stream.antt =====
-- source/fastlint/tsgo/msgpack.cc: `decodeFrame` on a buffer that grows as the pipe delivers bytes.
use fastlint.Base.{
  ℕ, zero, suc, ◌+◌, ◌-◌, ◌≤◌, ◌≡◌, ◌≢◌, refl, some, ◌++◌, arith, Bytes, length, get_or, drop,
  length-append, length-drop, get_or-append_left, drop-append_left, take-append_left,
}
use fastlint.Tsgo.Msgpack.{
  Frame, complete, incomplete, BinRead, found, short, bad, big_endian, header_len, read_sized,
  read_bin, slice, read_payload, read_method, read_body, decode_frame,
}

-- Bytes after a header do not change the size that it spells.
big_endian-append :
    (b more : Bytes) (i rounds size : ℕ)
    → i + rounds ≤ length b
    → big_endian (b ++ more) i rounds size ≡ big_endian b i rounds size
unfolding big_endian
big_endian-append b more i zero size h = refl
big_endian-append b more i (suc rounds) size h =
    rw (get_or-append_left b more i 0 (omega arith))
      (big_endian-append b more (i + 1) rounds _ (omega arith))

read_sized-append :
    (b more : Bytes) (at header : ℕ)
    → 1 ≤ header
    → read_sized b at header ≢ short
    → read_sized (b ++ more) at header ≡ read_sized b at header
unfolding read_sized
read_sized-append b more at header pos h =
    ground (arith, length-append b more, big_endian-append b more (at + 1) (header - 1) 0)

header_len-pos : (marker : ℕ) {header : ℕ} → header_len marker ≡ some header → 1 ≤ header
unfolding header_len
header_len-pos marker h = ground arith

read_bin-append :
    (b more : Bytes) (at : ℕ) → read_bin b at ≢ short → read_bin (b ++ more) at ≡ read_bin b at
unfolding read_bin header_len
read_bin-append b more at h = ground (
  arith,
  length-append b more,
  get_or-append_left b more at 0,
  read_sized-append b more at 2,
  read_sized-append b more at 3,
  read_sized-append b more at 5,
)

-- A bin that is found lies inside the buffer, behind its header.
read_bin-found :
    (b : Bytes) (at start size end : ℕ)
    → read_bin b at ≡ found start size end
    → (end ≡ start + size) × (at + 2 ≤ start) × (end ≤ length b)
unfolding read_bin read_sized header_len
read_bin-found b at start size end h = ground arith

slice-append :
    (b more : Bytes) (start size : ℕ)
    → start + size ≤ length b
    → slice (b ++ more) start size ≡ slice b start size
unfolding slice
slice-append b more start size h =
    rw (drop-append_left start b more (omega arith))
      (take-append_left size (drop start b) more (omega (arith, length-drop start b)))

read_payload-append :
    (b more : Bytes) (type : ℕ) (method : Bytes) (at : ℕ) (r : BinRead)
    → read_bin b at ≡ r
    → read_payload b type method r ≢ incomplete
    → read_payload (b ++ more) type method (read_bin (b ++ more) at) ≡ read_payload b type method r
unfolding read_payload
read_payload-append b more type method at short e h = absurd (h refl)
read_payload-append b more type method at (bad x) e h = ground (arith, read_bin-append b more at)
read_payload-append b more type method at (found start size end) e h = ground (
  arith,
  read_bin-append b more at,
  read_bin-found b at start size end,
  slice-append b more start size,
)

read_method-append :
    (b more : Bytes) (type at : ℕ) (r : BinRead)
    → read_bin b at ≡ r
    → read_method b type r ≢ incomplete
    → read_method (b ++ more) type (read_bin (b ++ more) at) ≡ read_method b type r
unfolding read_method
read_method-append b more type at short e h = absurd (h refl)
read_method-append b more type at (bad x) e h = ground (arith, read_bin-append b more at)
read_method-append b more type at (found start size end) e h = ground (
  arith,
  read_bin-append b more at,
  read_bin-found b at start size end,
  slice-append b more start size,
  read_payload-append b more type (slice b start size) end (read_bin b end) refl,
)

read_body-append :
    (b more : Bytes) (type at : ℕ)
    → read_body b type at ≢ incomplete
    → read_body (b ++ more) type at ≡ read_body b type at
unfolding read_body
read_body-append b more type at h =
    ground (arith, read_method-append b more type at (read_bin b at) refl)

-- Once the front of a buffer is a whole frame, or is malformed, bytes that arrive later do not
-- change what `decodeFrame` makes of it: the same frame, length or error.
pub decode_frame-append :
    (b more : Bytes) → decode_frame b ≢ incomplete → decode_frame (b ++ more) ≡ decode_frame b
unfolding decode_frame
decode_frame-append b more h = ground (
  arith,
  length-append b more,
  get_or-append_left b more 0 0,
  get_or-append_left b more 1 0,
  get_or-append_left b more 2 0,
  read_body-append b more (get_or b 1 0) 2,
  read_body-append b more (get_or b 2 0) 3,
)

read_payload-bounds :
    (b : Bytes) (type : ℕ) (method : Bytes) (at : ℕ) (r : BinRead) (f : Frame) (n : ℕ)
    → read_bin b at ≡ r
    → read_payload b type method r ≡ complete f n
    → (at + 2 ≤ n) × (n ≤ length b)
unfolding read_payload
read_payload-bounds b type method at short f n e h = absurd (cc)
read_payload-bounds b type method at (bad x) f n e h = absurd (cc)
read_payload-bounds b type method at (found start size end) f n e h =
    ground (arith, read_bin-found b at start size end)

read_method-bounds :
    (b : Bytes) (type at : ℕ) (r : BinRead) (f : Frame) (n : ℕ)
    → read_bin b at ≡ r
    → read_method b type r ≡ complete f n
    → (at + 4 ≤ n) × (n ≤ length b)
unfolding read_method
read_method-bounds b type at short f n e h = absurd (cc)
read_method-bounds b type at (bad x) f n e h = absurd (cc)
read_method-bounds b type at (found start size end) f n e h = ground (
  arith,
  read_bin-found b at start size end,
  read_payload-bounds b type (slice b start size) end (read_bin b end) f n refl,
)

read_body-bounds :
    (b : Bytes) (type at : ℕ) (f : Frame) (n : ℕ)
    → read_body b type at ≡ complete f n
    → (at + 4 ≤ n) × (n ≤ length b)
unfolding read_body
read_body-bounds b type at f n h =
    ground (arith, read_method-bounds b type at (read_bin b at) f n refl)

-- A complete frame has at least six bytes and ends inside the buffer, so `consumed` always makes
-- progress and never passes the end.
pub decode_frame_bounds :
    (b : Bytes) {f : Frame} {n : ℕ} → decode_frame b ≡ complete f n → (6 ≤ n) × (n ≤ length b)
unfolding decode_frame
decode_frame_bounds b {f} {n} h =
    ground (arith, read_body-bounds b (get_or b 1 0) 2 f n, read_body-bounds b (get_or b 2 0) 3 f n)
