-- ===== src/Mock/Image.antt =====
-- What `build_dump` of tools/make_mock_dump.py builds is the image of a dump.
use panicdump.Base.{
  ℕ, ◌^◌, ◌<◌, ◌≡◌, refl, sym, ap, ap₂, ◌∙◌, arith, List, ◌++◌, Bool, true, false, some, bit_xor,
  length, if◌then◌else◌,
}
use panicdump.Bits.Fields.{and-mask}
use panicdump.Bits.Xor.{xor-lt}
use panicdump.Crc
use panicdump.Dump.{Dump, IsDump, IsBytes}
use panicdump.Wire.{store_u32}
use panicdump.Fields.{crc32_with_zero_crc}
use panicdump.Fields.Image.{image, length-image, image-IsBytes}
use panicdump.Fields.Checksum.{sealed, checksum-crc32, checksum-image, checksum-lt}
use panicdump.Mock.{
  Fault, unknown, hardfault, memmanage, busfault, usagefault, sw_trigger, fault_code, template,
  make_stack_slice, header_fields, pack_header, pack_body, crc32, build_event,
}

-- The dump of a Cortex-M4 with the registers of a fault.
abbrev pub mock_dump : Fault → ℕ → ℕ → ℕ → Dump
mock_dump fault user_tag sequence flags = record {
  magic = 0x50444331;
  version = 1;
  header_size = 36;
  total_size = 192;
  flags = flags;
  arch_id = 4;
  fault_reason = fault_code fault;
  sequence = sequence;
  user_tag = user_tag;
  crc32 = 0;
  regs = template fault;
  stack = record {
    captured_sp = (template fault).msp;
    stack_bytes = 64;
    slice = make_stack_slice (template fault).msp;
  };
}

-- With another magic and checksum.
abbrev pub marked : Dump → ℕ → ℕ → Dump
marked d magic checksum = record d { magic = magic; crc32 = checksum }

pub mock_dump-IsDump :
    (fault : Fault) (t s f : ℕ)
    → t < 2 ^ 32
    → s < 2 ^ 32
    → f < 2 ^ 32
    → IsDump (mock_dump fault t s f)
mock_dump-IsDump unknown t s f p q r = omega arith
mock_dump-IsDump hardfault t s f p q r = omega arith
mock_dump-IsDump memmanage t s f p q r = omega arith
mock_dump-IsDump busfault t s f p q r = omega arith
mock_dump-IsDump usagefault t s f p q r = omega arith
mock_dump-IsDump sw_trigger t s f p q r = omega arith

packed-image :
    (fault : Fault) (m t s f c : ℕ)
    → header_fields m f (fault_code fault) s t c ++ pack_body fault
      ≡ image (marked (mock_dump fault t s f) m c)
unfolding pack_body image
packed-image fault m t s f c = refl

pack_header-some :
    (m f code s t c : ℕ)
    → f < 2 ^ 32
    → s < 2 ^ 32
    → t < 2 ^ 32
    → c < 2 ^ 32
    → pack_header m f code s t c ≡ some (header_fields m f code s t c)
unfolding pack_header
pack_header-some m f code s t c p q r u = ground arith

-- The checksum of an image with its magic, and with a zero for the checksum.
sealed-image : (d : Dump) → sealed (image (marked d 0x50444331 0)) ≡ image (marked d 0x50444331 0)
unfolding image store_u32
sealed-image d = refl

-- The checksum that is stored.
abbrev pub checksum_of : Dump → Bool → ℕ
checksum_of d corrupt_crc =
    let plain = crc32_with_zero_crc (image d) in
    if corrupt_crc then bit_xor plain 0xDEADBEEF else plain

pub checksum_of-lt : (d : Dump) (corrupt_crc : Bool) → IsDump d → checksum_of d corrupt_crc < 2 ^ 32
checksum_of-lt d true h =
    xor-lt 32 (crc32_with_zero_crc (image d)) 0xDEADBEEF
      (checksum-lt (image d) (image-IsBytes d h.stack.slice_bytes)) (omega arith)
checksum_of-lt d false h = checksum-lt (image d) (image-IsBytes d h.stack.slice_bytes)

-- The image that `build_dump` builds.
abbrev pub mock_image : Fault → ℕ → ℕ → ℕ → Bool → Bool → List ℕ
mock_image fault t s f corrupt_crc partial =
    let d = mock_dump fault t s f in
    let c = checksum_of d corrupt_crc in
    if partial then image (marked (mock_dump fault t s 0) 0 c) else image (marked d 0x50444331 c)

pub length-mock_image :
    (fault : Fault) (t s f : ℕ) (corrupt_crc partial : Bool)
    → t < 2 ^ 32
    → s < 2 ^ 32
    → f < 2 ^ 32
    → length (mock_image fault t s f corrupt_crc partial) ≡ 192
length-mock_image fault t s f corrupt_crc true p q r =
    length-image
      (marked (mock_dump fault t s 0) 0 (checksum_of (mock_dump fault t s f) corrupt_crc))
      (mock_dump-IsDump fault t s 0 p q (omega arith)).stack.slice_length
length-mock_image fault t s f corrupt_crc false p q r =
    length-image
      (marked (mock_dump fault t s f) 0x50444331 (checksum_of (mock_dump fault t s f) corrupt_crc))
      (mock_dump-IsDump fault t s f p q r).stack.slice_length

pub mock_image-IsBytes :
    (fault : Fault) (t s f : ℕ) (corrupt_crc partial : Bool)
    → t < 2 ^ 32
    → s < 2 ^ 32
    → f < 2 ^ 32
    → IsBytes (mock_image fault t s f corrupt_crc partial)
mock_image-IsBytes fault t s f corrupt_crc true p q r =
    image-IsBytes
      (marked (mock_dump fault t s 0) 0 (checksum_of (mock_dump fault t s f) corrupt_crc))
      (mock_dump-IsDump fault t s 0 p q (omega arith)).stack.slice_bytes
mock_image-IsBytes fault t s f corrupt_crc false p q r =
    image-IsBytes
      (marked (mock_dump fault t s f) 0x50444331 (checksum_of (mock_dump fault t s f) corrupt_crc))
      (mock_dump-IsDump fault t s f p q r).stack.slice_bytes

chosen :
    (fault : Fault) (t s f c : ℕ) (partial : Bool)
    → (if partial
          then header_fields 0 0 (fault_code fault) s t c
          else header_fields 0x50444331 f (fault_code fault) s t c)
        ++ pack_body fault
      ≡ (if partial
          then image (marked (mock_dump fault t s 0) 0 c)
          else image (marked (mock_dump fault t s f) 0x50444331 c))
chosen fault t s f c true = packed-image fault 0 t s 0 c
chosen fault t s f c false = packed-image fault 0x50444331 t s f c

module _ (zlib_crc32 : List ℕ → ℕ)
    (zlib : (s : List ℕ) → zlib_crc32 s ≡ Crc.crc32 s (length s)) where
  crc32-image :
      (d : Dump)
      → IsDump d
      → crc32 zlib_crc32 (image (marked d 0x50444331 0)) ≡ crc32_with_zero_crc (image d)
  unfolding crc32
  crc32-image d h =
      let w = image (marked d 0x50444331 0) in
      let full = length-image (marked d 0x50444331 0) h.stack.slice_length in
      let plain : zlib_crc32 w ≡ crc32_with_zero_crc (image d) =
        zlib w
        ∙ ap₂ Crc.crc32 (sym (sealed-image d)) full
        ∙ sym (checksum-crc32 w full)
        ∙ checksum-image d 0x50444331 0 in
      let bound = checksum-lt (image d) (image-IsBytes d h.stack.slice_bytes) in
      omega (arith, plain, bound, and-mask 32 (zlib_crc32 w))

  pub build_event-mock_image :
      (fault : Fault) (t s f : ℕ) (corrupt_crc partial : Bool)
      → t < 2 ^ 32
      → s < 2 ^ 32
      → f < 2 ^ 32
      → build_event zlib_crc32 fault t s f corrupt_crc partial
        ≡ some (mock_image fault t s f corrupt_crc partial)
  unfolding build_event
  build_event-mock_image fault t s f corrupt_crc partial p q r =
      let d = mock_dump fault t s f in
      let h = mock_dump-IsDump fault t s f p q r in
      let code = fault_code fault in
      let c = checksum_of d corrupt_crc in
      let fits = checksum_of-lt d corrupt_crc h in
      let plain : crc32 zlib_crc32 (header_fields 0x50444331 f code s t 0 ++ pack_body fault)
          ≡ crc32_with_zero_crc (image d) =
        ap (crc32 zlib_crc32) (packed-image fault 0x50444331 t s f 0) ∙ crc32-image d h in
      rw
        (
          pack_header-some 0x50444331 f code s t 0 r q p (omega arith),
          plain,
          pack_header-some 0x50444331 f code s t c r q p fits,
          pack_header-some 0 0 code s t c (omega arith) q p fits,
        )
        (ap some (chosen fault t s f c partial))
