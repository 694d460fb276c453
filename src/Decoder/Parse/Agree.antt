-- ===== src/Decoder/Parse/Agree.antt =====
-- The decoder and `panicdump_validate_wire` agree, on what is valid and on what it holds.
use panicdump.Base.{
  ℕ, ◌+◌, ◌^◌, ◌≤◌, ◌<◌, ◌≡◌, ◌↔◌, ◌⊎◌, refl, sym, ap, ap₂, ◌∙◌, arith, List, [], ◌∷◌, true, none,
  length, take, set, get_or, zero, suc, length-set,
}
use panicdump.Bits.Fields.{and-mask}
use panicdump.Wire.{byte_at, load_u16, load_u32, store_u32}
use panicdump.Wire.Word.{byte_at-lt, load_u32-sum, load_u16-sum, load_u32-lt}
use panicdump.Crc.{crc32}
use panicdump.Dump.{IsBytes, Dump}
use panicdump.Fields.Checksum.{sealed, checksum-crc32, checksum-lt}
use panicdump.Decoder.Parse.{
  PanicDump, field_error, unpack_u32, unpack_u16, with_zero_crc, compute_crc32, verify_crc,
}
use panicdump.Codec.Valid.{known_flags, IsValidImage}

pub record FieldsKnown (n m v hs ts f a r sb : ℕ) : Type 0 where
  pub size : n ≡ 192
  pub magic : m ≡ 0x50444331
  pub version : v ≡ 1
  pub header_size : hs ≡ 36
  pub total_size : ts ≡ 192
  pub flags : f < 16
  pub arch_id : (a ≡ 3) ⊎ (a ≡ 4)
  pub fault_reason : r ≤ 5
  pub stack_bytes : (sb ≡ 0) ⊎ (sb ≡ 64)

field_error_iff :
    (n m v hs ts f a r sb : ℕ)
    → f < 2 ^ 32
    → (field_error n m v hs ts f a r sb ≡ none) ↔ FieldsKnown n m v hs ts f a r sb
unfolding field_error
field_error_iff n m v hs ts f a r sb h = ground (arith, known_flags f h)

-- A write of what stands there already.
set_same : (xs : List ℕ) (i v : ℕ) → get_or xs i 0 ≡ v → set xs i v ≡ xs
set_same [] i v e = refl
set_same (x ∷ xs) zero v e = ap (λ y. y ∷ xs) (sym e)
set_same (x ∷ xs) (suc i) v e = ap (λ l. x ∷ l) (set_same xs i v e)

module _ (raw : List ℕ) (bytes : IsBytes raw) where
  pub word : (i : ℕ) → unpack_u32 raw i ≡ load_u32 raw i
  word i =
      let b = λ (j : ℕ). byte_at-lt raw j bytes in
      sym (load_u32-sum raw i (b i) (b (i + 1)) (b (i + 2)) (b (i + 3)))

  pub half : (i : ℕ) → unpack_u16 raw i ≡ load_u16 raw i
  half i = sym (load_u16-sum raw i (byte_at-lt raw i bytes) (byte_at-lt raw (i + 1) bytes))

  -- With the magic in place, storing it changes nothing.
  sealed-zero_crc : load_u32 raw 0 ≡ 0x50444331 → sealed raw ≡ with_zero_crc raw
  unfolding store_u32
  sealed-zero_crc e =
      let sum = word 0 ∙ e in
      let b = λ (j : ℕ). byte_at-lt raw j bytes in
      let e0 : byte_at raw 0 ≡ 49 = omega (arith, sum, b 0, b 1, b 2, b 3) in
      let e1 : byte_at raw 1 ≡ 67 = omega (arith, sum, b 0, b 1, b 2, b 3) in
      let e2 : byte_at raw 2 ≡ 68 = omega (arith, sum, b 0, b 1, b 2, b 3) in
      let e3 : byte_at raw 3 ≡ 80 = omega (arith, sum, b 0, b 1, b 2, b 3) in
      let same : set (set (set (set raw 0 49) 1 67) 2 68) 3 80 ≡ raw =
        ap (λ l. set (set (set l 1 67) 2 68) 3 80) (set_same raw 0 49 e0)
        ∙ ap (λ l. set (set l 2 68) 3 80) (set_same raw 1 67 e1)
        ∙ ap (λ l. set l 3 80) (set_same raw 2 68 e2)
        ∙ set_same raw 3 80 e3 in
      ap with_zero_crc same

  -- What the decoder computes is the checksum of the validator.
  module _ (zlib_crc32 : List ℕ → ℕ) (zlib : (s : List ℕ) → zlib_crc32 s ≡ crc32 s (length s))
      (full : length raw ≡ 192) (magic : load_u32 raw 0 ≡ 0x50444331) where
    computed : compute_crc32 zlib_crc32 (with_zero_crc raw) ≡ crc32 (sealed raw) 192
    unfolding compute_crc32
    computed =
        let size : length (with_zero_crc raw) ≡ 192 =
          length-set (set (set (set raw 32 0) 33 0) 34 0) 35 0
          ∙ length-set (set (set raw 32 0) 33 0) 34 0
          ∙ length-set (set raw 32 0) 33 0
          ∙ length-set raw 32 0
          ∙ full in
        let plain : zlib_crc32 (with_zero_crc raw) ≡ crc32 (sealed raw) 192 =
          zlib (with_zero_crc raw) ∙ ap₂ crc32 (sym (sealed-zero_crc magic)) size in
        let bound : crc32 (sealed raw) 192 < 2 ^ 32 =
          omega (arith, checksum-crc32 raw full, checksum-lt raw bytes) in
        omega (arith, plain, bound, and-mask 32 (zlib_crc32 (with_zero_crc raw)))

    pub verify_crc_iff :
        (verify_crc zlib_crc32 raw ≡ true) ↔ (load_u32 raw 32 ≡ crc32 (sealed raw) 192)
    unfolding verify_crc
    verify_crc_iff = ground (arith, word 32, computed)

-- The dump of the decoder for a valid dump of the library: only a slice of `stack_bytes` bytes.
abbrev pub decoded : Dump → PanicDump
decoded d = record {
  magic = d.magic;
  version = d.version;
  header_size = d.header_size;
  total_size = d.total_size;
  flags = d.flags;
  arch_id = d.arch_id;
  fault_reason = d.fault_reason;
  sequence = d.sequence;
  user_tag = d.user_tag;
  crc32 = d.crc32;
  crc_ok = true;
  regs = d.regs;
  stack_sp = d.stack.captured_sp;
  stack_bytes = d.stack.stack_bytes;
  stack_data = take d.stack.stack_bytes d.stack.slice;
}

module _ (zlib_crc32 : List ℕ → ℕ) (zlib : (s : List ℕ) → zlib_crc32 s ≡ crc32 s (length s))
    (raw : List ℕ) (bytes : IsBytes raw) where
  pub fields_known :
      (field_error
          (length raw)
          (unpack_u32 raw 0)
          (unpack_u16 raw 4)
          (unpack_u16 raw 6)
          (unpack_u32 raw 8)
          (unpack_u32 raw 12)
          (unpack_u32 raw 16)
          (unpack_u32 raw 20)
          (unpack_u32 raw 124)
        ≡ none)
      ↔ FieldsKnown
          (length raw)
          (unpack_u32 raw 0)
          (unpack_u16 raw 4)
          (unpack_u16 raw 6)
          (unpack_u32 raw 8)
          (unpack_u32 raw 12)
          (unpack_u32 raw 16)
          (unpack_u32 raw 20)
          (unpack_u32 raw 124)
  fields_known =
      field_error_iff _ _ _ _ _ (unpack_u32 raw 12) _ _ _
        (omega (arith, word raw bytes 12, load_u32-lt raw 12 bytes))

  pub known-valid :
      FieldsKnown
        (length raw)
        (unpack_u32 raw 0)
        (unpack_u16 raw 4)
        (unpack_u16 raw 6)
        (unpack_u32 raw 8)
        (unpack_u32 raw 12)
        (unpack_u32 raw 16)
        (unpack_u32 raw 20)
        (unpack_u32 raw 124)
      → verify_crc zlib_crc32 raw ≡ true
      → IsValidImage raw
  known-valid k ok =
      let magic = sym (word raw bytes 0) ∙ k.magic in
      record {
        magic = magic;
        version = sym (half raw bytes 4) ∙ k.version;
        header_size = sym (half raw bytes 6) ∙ k.header_size;
        total_size = sym (word raw bytes 8) ∙ k.total_size;
        flags = omega (arith, word raw bytes 12, k.flags);
        arch_id = omega (arith, word raw bytes 16, k.arch_id);
        fault_reason = omega (arith, word raw bytes 20, k.fault_reason);
        stack_bytes = omega (arith, word raw bytes 124, k.stack_bytes);
        crc32 = (verify_crc_iff raw bytes zlib_crc32 zlib k.size magic).0 ok;
      }

  pub valid-known :
      length raw ≡ 192
      → IsValidImage raw
      → FieldsKnown
          (length raw)
          (unpack_u32 raw 0)
          (unpack_u16 raw 4)
          (unpack_u16 raw 6)
          (unpack_u32 raw 8)
          (unpack_u32 raw 12)
          (unpack_u32 raw 16)
          (unpack_u32 raw 20)
          (unpack_u32 raw 124)
  valid-known full v = record {
    size = full;
    magic = word raw bytes 0 ∙ v.magic;
    version = half raw bytes 4 ∙ v.version;
    header_size = half raw bytes 6 ∙ v.header_size;
    total_size = word raw bytes 8 ∙ v.total_size;
    flags = omega (arith, word raw bytes 12, v.flags);
    arch_id = omega (arith, word raw bytes 16, v.arch_id);
    fault_reason = omega (arith, word raw bytes 20, v.fault_reason);
    stack_bytes = omega (arith, word raw bytes 124, v.stack_bytes);
  }
