-- ===== src/Tag.antt =====
-- `panicdump_reason_tag_hash_n` of src/panicdump.c. The string is a pointer: for each index the
-- character that stands there, or null.
pub mod Hash
use panicdump.Base.{ℕ, zero, suc, ◌+◌, ◌*◌, Option, none, some, bit_xor, ◌!=◌, if◌then◌else◌, u32}

-- The parts of the loop's body.
unfoldable pub hash_byte : ℕ → ℕ → ℕ
hash_byte hash byte = u32 (bit_xor hash byte * 0x01000193)

-- The loop at the index `i`, with at most `left` rounds to come.
unfoldable pub hash_loop : (ℕ → ℕ) → ℕ → ℕ → ℕ → ℕ
hash_loop tag i zero hash = hash
hash_loop tag i (suc left) hash =
    let next = hash_loop tag (i + 1) left (hash_byte hash (tag i)) in
    if tag i != 0 then next else hash

unfoldable pub reason_tag_hash_n : Option (ℕ → ℕ) → ℕ → ℕ
unfolding hash_loop
reason_tag_hash_n none max_len = 0x811C9DC5
reason_tag_hash_n (some tag) max_len = hash_loop tag 0 max_len 0x811C9DC5
