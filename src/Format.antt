-- ===== src/Format.antt =====
-- The constants of include/panicdump.h: magic, versions, flags, reasons, and the layout of the wire
-- image.
use panicdump.Base.{ℕ}

abbrev pub magic : ℕ
magic = 0x50444331

abbrev pub version : ℕ
version = 1

abbrev pub arch_cortex_m3 : ℕ
arch_cortex_m3 = 0x0003

abbrev pub arch_cortex_m4 : ℕ
arch_cortex_m4 = 0x0004

abbrev pub reason_tag_max_len : ℕ
reason_tag_max_len = 32

abbrev pub flag_invalid_frame : ℕ
flag_invalid_frame = 1

abbrev pub flag_use_psp : ℕ
flag_use_psp = 2

abbrev pub flag_stack_valid : ℕ
flag_stack_valid = 4

abbrev pub flag_frame_valid : ℕ
flag_frame_valid = 8

abbrev pub magic_offset : ℕ
magic_offset = 0

abbrev pub version_offset : ℕ
version_offset = 4

abbrev pub header_size_offset : ℕ
header_size_offset = 6

abbrev pub total_size_offset : ℕ
total_size_offset = 8

abbrev pub flags_offset : ℕ
flags_offset = 12

abbrev pub arch_id_offset : ℕ
arch_id_offset = 16

abbrev pub fault_reason_offset : ℕ
fault_reason_offset = 20

abbrev pub sequence_offset : ℕ
sequence_offset = 24

abbrev pub user_tag_offset : ℕ
user_tag_offset = 28

abbrev pub crc32_offset : ℕ
crc32_offset = 32

abbrev pub header_size : ℕ
header_size = 36

abbrev pub regs_offset : ℕ
regs_offset = 36

abbrev pub regs_size : ℕ
regs_size = 84

abbrev pub stack_offset : ℕ
stack_offset = 120

abbrev pub stack_size : ℕ
stack_size = 72

abbrev pub stack_slice_bytes : ℕ
stack_slice_bytes = 64

abbrev pub wire_total_size : ℕ
wire_total_size = 192

abbrev pub fault_hard : ℕ
fault_hard = 1

abbrev pub fault_mem : ℕ
fault_mem = 2

abbrev pub fault_bus : ℕ
fault_bus = 3

abbrev pub fault_usage : ℕ
fault_usage = 4

abbrev pub fault_sw_trigger : ℕ
fault_sw_trigger = 5
