-- ===== src/Fields/Decode.antt =====
-- Reading the fields of an image gives the dump back. Only the 64 bytes of a slice marked empty are
-- not those of the struct but zero.
use panicdump.Base.{◌≡◌, ◌≤◌, ap, ◌∙◌, arith, length, tabulate-get_or, ltb, if◌then◌else◌}
use panicdump.Wire.{load_u16, load_u32, copy_bytes}
use panicdump.Wire.Word.{load_u16-le_u16, load_u32-le_u32}
use panicdump.Dump.{Stack, Dump, IsRegs, IsStack, IsDump, zero_stack}
use panicdump.Fields.{read_regs, read_stack, decode_dump_fields}
use panicdump.Fields.Image.{image, slice_image}

-- The dump as an image holds it.
abbrev pub stored : Dump → Dump
stored dump = record dump { stack = record dump.stack { slice = slice_image dump.stack } }

read_regs-image : (dump : Dump) → IsRegs dump.regs → read_regs (image dump) ≡ dump.regs
unfolding read_regs image load_u32
read_regs-image dump h = λ i. record {
  r0 = load_u32-le_u32 dump.regs.r0 h.r0 i;
  r1 = load_u32-le_u32 dump.regs.r1 h.r1 i;
  r2 = load_u32-le_u32 dump.regs.r2 h.r2 i;
  r3 = load_u32-le_u32 dump.regs.r3 h.r3 i;
  r12 = load_u32-le_u32 dump.regs.r12 h.r12 i;
  lr = load_u32-le_u32 dump.regs.lr h.lr i;
  pc = load_u32-le_u32 dump.regs.pc h.pc i;
  xpsr = load_u32-le_u32 dump.regs.xpsr h.xpsr i;
  msp = load_u32-le_u32 dump.regs.msp h.msp i;
  psp = load_u32-le_u32 dump.regs.psp h.psp i;
  control = load_u32-le_u32 dump.regs.control h.control i;
  primask = load_u32-le_u32 dump.regs.primask h.primask i;
  basepri = load_u32-le_u32 dump.regs.basepri h.basepri i;
  faultmask = load_u32-le_u32 dump.regs.faultmask h.faultmask i;
  cfsr = load_u32-le_u32 dump.regs.cfsr h.cfsr i;
  hfsr = load_u32-le_u32 dump.regs.hfsr h.hfsr i;
  dfsr = load_u32-le_u32 dump.regs.dfsr h.dfsr i;
  mmfar = load_u32-le_u32 dump.regs.mmfar h.mmfar i;
  bfar = load_u32-le_u32 dump.regs.bfar h.bfar i;
  afsr = load_u32-le_u32 dump.regs.afsr h.afsr i;
  shcsr = load_u32-le_u32 dump.regs.shcsr h.shcsr i;
}

pub length-slice_image : (s : Stack) → length s.slice ≡ 64 → length (slice_image s) ≡ 64
length-slice_image s e = ground arith

-- `panicdump_read_stack` takes a length above 64 for 0; up to 64 it reads what was stored.
read_stack-image :
    (dump : Dump)
    → IsStack dump.stack
    → dump.stack.stack_bytes ≤ 64
    → read_stack zero_stack (image dump) ≡ (stored dump).stack
unfolding read_stack image load_u32 copy_bytes
read_stack-image dump h small =
    let bytes = load_u32-le_u32 dump.stack.stack_bytes h.stack_bytes in
    let kept : (if ltb 64 dump.stack.stack_bytes then 0 else dump.stack.stack_bytes)
        ≡ dump.stack.stack_bytes =
      ground arith in
    λ i. record {
      captured_sp = load_u32-le_u32 dump.stack.captured_sp h.captured_sp i;
      stack_bytes = (ap (λ n. if ltb 64 n then 0 else n) bytes ∙ kept) i;
      slice =
          tabulate-get_or 64 (slice_image dump.stack) 0
            (length-slice_image dump.stack h.slice_length) i;
    }

-- Decoding the image of a dump in range, with a slice length of at most 64, gives back every field.
-- Only an empty slice is 64 zero bytes.
pub decode-image :
    (dump : Dump)
    → IsDump dump
    → dump.stack.stack_bytes ≤ 64
    → decode_dump_fields (image dump) ≡ stored dump
unfolding decode_dump_fields image load_u32 load_u16
decode-image dump h small = λ i. record {
  magic = load_u32-le_u32 dump.magic h.magic i;
  version = load_u16-le_u16 dump.version h.version i;
  header_size = load_u16-le_u16 dump.header_size h.header_size i;
  total_size = load_u32-le_u32 dump.total_size h.total_size i;
  flags = load_u32-le_u32 dump.flags h.flags i;
  arch_id = load_u32-le_u32 dump.arch_id h.arch_id i;
  fault_reason = load_u32-le_u32 dump.fault_reason h.fault_reason i;
  sequence = load_u32-le_u32 dump.sequence h.sequence i;
  user_tag = load_u32-le_u32 dump.user_tag h.user_tag i;
  crc32 = load_u32-le_u32 dump.crc32 h.crc32 i;
  regs = read_regs-image dump h.regs i;
  stack = read_stack-image dump h.stack small i;
}
