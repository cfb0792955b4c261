-- ===== src/Types/Hasher.antt =====
-- source/fastlint/types/type_graph.h, type_graph.cc: `Hasher`, the 64-bit FNV-1a. A number is hashed by
-- its bytes in memory, the lowest first.
use Prim.Native.Nat.{bit_xor}
use fastlint.Base.{ℕ, zero, suc, ◌*◌, ◌/◌, ◌%◌, ◌^◌, Bytes, [], ◌∷◌, length}

abbrev pub offset_basis : ℕ
offset_basis = 0xcbf29ce484222325

unfoldable pub hash_bytes : Bytes → ℕ → ℕ
hash_bytes [] value = value
hash_bytes (b ∷ s) value = hash_bytes s (bit_xor value b * 0x100000001b3 % 2 ^ 64)

-- The lowest `n` bytes of a number.
unfoldable pub memory_bytes : ℕ → ℕ → Bytes
memory_bytes zero v = []
memory_bytes (suc n) v = v % 256 ∷ memory_bytes n (v / 256)

unfoldable pub hash_u32 : ℕ → ℕ → ℕ
hash_u32 v value = hash_bytes (memory_bytes 4 v) value

unfoldable pub hash_u64 : ℕ → ℕ → ℕ
hash_u64 v value = hash_bytes (memory_bytes 8 v) value

unfoldable pub hash_text : Bytes → ℕ → ℕ
hash_text s value = hash_bytes s (hash_u32 (length s) value)

-- `Hasher().text(text).value`, and the hash of a whole content.
abbrev pub text_key : Bytes → ℕ
text_key text = hash_text text offset_basis

abbrev pub hash_content : Bytes → ℕ
hash_content bytes = hash_bytes bytes offset_basis
