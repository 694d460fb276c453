-- ===== src/Mock/Valid.antt =====
-- The library refuses the images that `build_dump` of tools/make_mock_dump.py spoils, and accepts and
-- decodes the others.
use panicdump.Base.{
  ℕ, zero, suc, ◌^◌, ◌<◌, ◌≤◌, ◌≡◌, ◌≢◌, ◌⊎◌, inl, inr, refl, sym, ◌∙◌, arith, List, Bool, true,
  false, not, ◌||◌, some, bit_xor, length, Bool-cases,
}
use panicdump.Bits.Xor.{xor_zero, xor_inj_right}
use panicdump.Crc
use panicdump.Dump.{Dump, IsDump, IsBytes}
use panicdump.Fields.{crc32_with_zero_crc}
use panicdump.Fields.Image.{image, length-image, image-IsBytes}
use panicdump.Fields.Decode.{decode-image}
use panicdump.Fields.Checksum.{checksum-image}
use panicdump.Codec.{validate_wire, decode_dump}
use panicdump.Codec.Header.{image-IsValidImage_iff}
use panicdump.Codec.Valid.{IsValidDump, validate_wire_iff}
use panicdump.Codec.RoundTrip.{with_checksum, with_checksum-IsDump, image_valid-image}
use panicdump.Mock.{
  Fault, unknown, hardfault, memmanage, busfault, usagefault, sw_trigger, fault_code, set_flags,
  build_dump,
}
use panicdump.Mock.Image.{
  mock_dump, marked, mock_dump-IsDump, checksum_of, checksum_of-lt, mock_image, length-mock_image,
  mock_image-IsBytes, build_event-mock_image,
}

set_flags-lt :
    (fault : Fault) (s f : ℕ)
    → s < 2 ^ 32
    → f < 16
    → let (f', s') = set_flags fault s f in (f' < 16) × (s' < 2 ^ 32)
set_flags-lt sw_trigger s f p q = omega arith
set_flags-lt unknown s zero p q = omega arith
set_flags-lt hardfault s zero p q = omega arith
set_flags-lt memmanage s zero p q = omega arith
set_flags-lt busfault s zero p q = omega arith
set_flags-lt usagefault s zero p q = omega arith
set_flags-lt unknown s (suc f) p q = omega arith
set_flags-lt hardfault s (suc f) p q = omega arith
set_flags-lt memmanage s (suc f) p q = omega arith
set_flags-lt busfault s (suc f) p q = omega arith
set_flags-lt usagefault s (suc f) p q = omega arith

known_code : (fault : Fault) → fault_code fault ≤ 5
known_code unknown = omega arith
known_code hardfault = omega arith
known_code memmanage = omega arith
known_code busfault = omega arith
known_code usagefault = omega arith
known_code sw_trigger = omega arith

mock_dump-IsValidDump : (fault : Fault) (t s f : ℕ) → f < 16 → IsValidDump (mock_dump fault t s f)
mock_dump-IsValidDump fault t s f h = record {
  magic = refl;
  version = refl;
  header_size = refl;
  total_size = refl;
  flags = h;
  arch_id = inr refl;
  fault_reason = known_code fault;
  stack_bytes = inr refl;
}

-- An image with other fields than those of a valid dump or with another checksum.
refused :
    (d : Dump)
    → IsDump d
    → ((d.magic ≢ 0x50444331) ⊎ (d.crc32 ≢ crc32_with_zero_crc (image d)))
    → validate_wire (some (image d)) 192 ≡ false
refused d h bad = elim (Bool-cases (validate_wire (some (image d)) 192)) [
  | inl taken ↦
      let full = length-image d h.stack.slice_length in
      let bytes = image-IsBytes d h.stack.slice_bytes in
      let valid = (validate_wire_iff (image d) 192 full bytes).0 taken in
      let (v, same) = (image-IsValidImage_iff d h).0 valid.1 in
      elim bad [ inl magic ↦ absurd (magic v.magic) | inr checksum ↦ absurd (checksum same) ]
  | inr untaken ↦ untaken
]

accepted :
    (d : Dump)
    → IsDump d
    → IsValidDump d
    → validate_wire (some (image (with_checksum d))) 192 ≡ true
unfolding validate_wire
accepted d h v = image_valid-image d h v

marked-IsDump : (d : Dump) (m c : ℕ) → IsDump d → m < 2 ^ 32 → c < 2 ^ 32 → IsDump (marked d m c)
marked-IsDump d m c h p q = record {
  magic = p;
  version = h.version;
  header_size = h.header_size;
  total_size = h.total_size;
  flags = h.flags;
  arch_id = h.arch_id;
  fault_reason = h.fault_reason;
  sequence = h.sequence;
  user_tag = h.user_tag;
  crc32 = q;
  regs = h.regs;
  stack = h.stack;
}

-- The checksum with bits flipped is another one.
flipped : (c : ℕ) → bit_xor c 0xDEADBEEF ≢ c
flipped c e =
    let none' : 0xDEADBEEF ≡ 0 = xor_inj_right 0xDEADBEEF 0 c (e ∙ sym (xor_zero c)) in
    absurd (omega (arith, none'))

verdict :
    (fault : Fault) (t s f : ℕ) (corrupt_crc partial : Bool)
    → t < 2 ^ 32
    → s < 2 ^ 32
    → f < 16
    → validate_wire (some (mock_image fault t s f corrupt_crc partial)) 192
      ≡ not (corrupt_crc || partial)
verdict fault t s f corrupt_crc true p q r =
    let d = mock_dump fault t s f in
    let typed = mock_dump-IsDump fault t s f p q (omega arith) in
    let blank = mock_dump-IsDump fault t s 0 p q (omega arith) in
    let c = checksum_of d corrupt_crc in
    let out =
      refused (marked (mock_dump fault t s 0) 0 c)
        (marked-IsDump (mock_dump fault t s 0) 0 c blank (omega arith)
          (checksum_of-lt d corrupt_crc typed))
        (inl (λ e. absurd (omega (arith, e)))) in
    out ∙ ground arith
verdict fault t s f true false p q r =
    let d = mock_dump fault t s f in
    let typed = mock_dump-IsDump fault t s f p q (omega arith) in
    let c = checksum_of d true in
    refused (marked d 0x50444331 c)
      (marked-IsDump d 0x50444331 c typed (omega arith) (checksum_of-lt d true typed))
      (inr (λ e. flipped (crc32_with_zero_crc (image d)) (e ∙ checksum-image d 0x50444331 c)))
verdict fault t s f false false p q r =
    accepted (mock_dump fault t s f) (mock_dump-IsDump fault t s f p q (omega arith))
      (mock_dump-IsValidDump fault t s f r)

decoded :
    (fault : Fault) (t s f : ℕ) (out : Dump)
    → t < 2 ^ 32
    → s < 2 ^ 32
    → f < 16
    → decode_dump (some out) (some (image (with_checksum (mock_dump fault t s f)))) 192
      ≡ (true, some (with_checksum (mock_dump fault t s f)))
unfolding decode_dump
decoded fault t s f out p q r =
    let d = mock_dump fault t s f in
    let typed = mock_dump-IsDump fault t s f p q (omega arith) in
    rw
      (
        accepted d typed (mock_dump-IsValidDump fault t s f r),
        decode-image (with_checksum d) (with_checksum-IsDump d typed) (omega arith),
      )
      refl

-- What the generator makes of a dump that it does not spoil.
yields :
    (fault : Fault) (t s f : ℕ) (corrupt_crc partial : Bool) (out : Dump)
    → t < 2 ^ 32
    → s < 2 ^ 32
    → f < 16
    → ((corrupt_crc || partial) ≡ true)
      ⊎ (decode_dump (some out) (some (mock_image fault t s f corrupt_crc partial)) 192
          ≡ (true, some (with_checksum (mock_dump fault t s f))))
yields fault t s f true partial out p q r = inl refl
yields fault t s f false true out p q r = inl refl
yields fault t s f false false out p q r = inr (decoded fault t s f out p q r)

module _ (zlib_crc32 : List ℕ → ℕ)
    (zlib : (s : List ℕ) → zlib_crc32 s ≡ Crc.crc32 s (length s)) where
  -- What a variant of the generator is: 192 bytes, which the library accepts if it is not spoiled.
  pub build_dump-image :
      (fault : Fault) (user_tag : ℕ) (corrupt_crc partial : Bool)
      → user_tag < 2 ^ 32
      → (w : List ℕ) × (build_dump zlib_crc32 fault user_tag 0 0 corrupt_crc partial ≡ some w)
        × (length w ≡ 192)
        × IsBytes w
        × (validate_wire (some w) 192 ≡ not (corrupt_crc || partial))
  unfolding build_dump
  build_dump-image fault t corrupt_crc partial p =
      let (f, s) = set_flags fault 0 0 in
      let (known, fits) = set_flags-lt fault 0 0 (omega arith) (omega arith) in
      (
        mock_image fault t s f corrupt_crc partial,
        build_event-mock_image zlib_crc32 zlib fault t s f corrupt_crc partial p fits (omega arith),
        length-mock_image fault t s f corrupt_crc partial p fits (omega arith),
        mock_image-IsBytes fault t s f corrupt_crc partial p fits (omega arith),
        verdict fault t s f corrupt_crc partial p fits known,
      )

  -- For every fault of the generator and every tag, sequence and flags that the format knows:
  -- `build_dump` builds an image, which `panicdump_validate_wire` accepts exactly if neither
  -- `corrupt_crc` nor `partial` is set. Then `panicdump_decode_dump` returns the fields that were
  -- packed and the checksum of the format, given that `zlib.crc32` is the CRC-32 of the format.
  pub build_dump-validate_wire :
      (fault : Fault) (user_tag sequence flags : ℕ) (corrupt_crc partial : Bool) (out : Dump)
      → user_tag < 2 ^ 32
      → sequence < 2 ^ 32
      → flags < 16
      → let (flags', sequence') = set_flags fault sequence flags in
        (w : List ℕ) × (build_dump zlib_crc32 fault user_tag sequence flags corrupt_crc partial
          ≡ some w)
        × (validate_wire (some w) 192 ≡ not (corrupt_crc || partial))
        × (((corrupt_crc || partial) ≡ true)
            ⊎ (decode_dump (some out) (some w) 192
                ≡ (true, some (with_checksum (mock_dump fault user_tag sequence' flags')))))
  unfolding build_dump
  build_dump-validate_wire fault t s f corrupt_crc partial out p q r =
      let (f', s') = set_flags fault s f in
      let (known, fits) = set_flags-lt fault s f q r in
      (
        mock_image fault t s' f' corrupt_crc partial,
        build_event-mock_image zlib_crc32 zlib fault t s' f' corrupt_crc partial p fits
            (omega arith),
        verdict fault t s' f' corrupt_crc partial p fits known,
        yields fault t s' f' corrupt_crc partial out p fits known,
      )
