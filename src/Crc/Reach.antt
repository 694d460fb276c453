-- ===== src/Crc/Reach.antt =====
-- The checksum reads its range and nothing else, and can be taken in pieces.
use panicdump.Base.{ℕ, zero, suc, ◌+◌, ◌≤◌, ◌<◌, ◌≡◌, refl, ap, ap₂, ◌∙◌, List, arith}
use panicdump.Wire.{byte_at}
use panicdump.Crc.{crc_byte, crc32_update}

pub crc32_update_ext :
    (crc : ℕ) (v w : List ℕ) (off len : ℕ)
    → ((i : ℕ) → off ≤ i → i < off + len → byte_at v i ≡ byte_at w i)
    → crc32_update crc v off len ≡ crc32_update crc w off len
unfolding crc32_update
crc32_update_ext crc v w off zero same = refl
crc32_update_ext crc v w off (suc len) same =
    ap (λ b. crc32_update (crc_byte crc b) v (off + 1) len) (same off (omega arith) (omega arith))
    ∙ crc32_update_ext (crc_byte crc (byte_at w off)) v w (off + 1) len
        λ i p q. same i (omega arith) (omega arith)

-- Streaming: `m + n` bytes at once are `m` bytes and then `n`.
pub crc32_update-add :
    (crc : ℕ) (w : List ℕ) (off m n : ℕ)
    → crc32_update crc w off (m + n) ≡ crc32_update (crc32_update crc w off m) w (off + m) n
unfolding crc32_update
crc32_update-add crc w off zero n =
    let start : off ≡ off + 0 = omega arith in
    let count : 0 + n ≡ n = omega arith in ap₂ (crc32_update crc w) start count
crc32_update-add crc w off (suc m) n =
    ap (crc32_update crc w off) (let e : suc m + n ≡ suc (m + n) = omega arith in e)
    ∙ crc32_update-add (crc_byte crc (byte_at w off)) w (off + 1) m n
    ∙ ap (λ k. crc32_update (crc32_update (crc_byte crc (byte_at w off)) w (off + 1) m) w k n)
        (omega arith)
