-- ===== src/Lib.antt =====
-- A model of panicdump, a crash-dump library for Cortex-M3 and M4: a fault handler or a software
-- trigger commits the registers and 64 bytes of stack to a slot of 192 bytes that survives a reset,
-- and the next boot validates the slot, reads it back or exports it as hex text, and clears it.
--
-- The parts, from the bottom up:
-- * Wire is src/panicdump_wire.h and src/panicdump_util.h: `panicdump_wire_store_u32` is
--   `store_u32`, and so on. Crc is include/panicdump_crc32.h, and Crc/Division the checksum that
--   ISO 3309 and ITU-T V.42 define by division of polynomials.
-- * Format and Dump are the constants and structs of include/panicdump.h.
-- * Fields and Codec are the static field writers and readers of src/panicdump.c and its public
--   codec: `panicdump_encode_dump`, `panicdump_decode_dump`, `panicdump_validate_wire` and
--   `panicdump_validate_dump`.
-- * Slot is the slot of src/panicdump.c, its calls and `panicdump_commit_snapshot`. Slot/Stores has a
--   commit and a clear as the sequences of their single stores, Slot/Events the commit on a machine
--   that holds stores back, and Slot/Life the slot over any number of boots.
-- * Export is the export of src/panicdump.c, and Tag and Trigger its tag hash and its triggers.
-- * Port is the interface that include/panicdump_port.h asks of a port, which Trigger takes as a
--   parameter. Port/Host is src/panicdump_port_host.c, and Port/CortexM is src/panicdump_port_cortexm.c
--   with the stubs of ports/cortexm/panicdump_fault_entry.S; Port/CortexM/Publish has its barrier, its
--   reset and the fault handler as events, and Port/CortexM/Bus the handler on a memory
--   where a load can fail.
-- * Boot is a crash and the next boot: a commit or the fault handler, and then the export.
-- * Cell is what the calls of include/panicdump.h that read or change the slot promise to an
--   application: a cell with a user tag and at most one dump.
-- * Demo has the programs that use the library. Demo/Uart is examples/stm32f4_demo/stm32f4_uart.c,
--   Demo/Delay and Demo/Stm32 are main.c beside it, and Demo/Startup and Demo/Vectors the
--   `Reset_Handler` and the vector table of startup_stm32f4.S there. Demo/Generic is
--   examples/generic_cortexm_demo/generic_cortexm_demo.c. `main` is `start`, up to where it goes on
--   forever, and `demo_trigger_fault`, `idle` or `main_loop` from there.
-- * Decoder is the offline decoder, tools/decode_panicdump.py: Decoder/Frame reads the framed hex with
--   the functions on strings of Decoder/Strings, Decoder/Parse the image, Decoder/Tags names the tags
--   of software triggers, Decoder/Cfsr the bits of a fault status, Decoder/Report is `render_report`,
--   Decoder/Json the object that `json.dumps` is given, and Decoder/Main is `main`. Decoder/Pipeline
--   goes from a commit on the target to the dump on the host.
-- * Mock is the generator of test vectors, tools/make_mock_dump.py: `build_dump` and `build_hex_framed`,
--   and in Mock/Files `main`, with the directory that it writes to.
-- * Postmortem is the whole way of a dump: a fault through an entry stub, the reset with the start-up
--   code, the export, and the report of the decoder.
-- * Base and Bits hold library names, lists, tests on numbers and the lemmas on bits that the parts
--   share; Tests the concrete inputs and runs.
-- A definition has the name of its C function without the prefix panicdump_ (and wire_ or port_). What
-- a function does with a part of its body has a name of its own where a loop or a long body needs one.
--
-- How the code is modelled:
-- * An integer is a native natural number below 2 ^ w, and what wraps or is cut is written out. That
--   values are in range is a predicate (IsDump, IsSlot, IsSnapshot, IsMachine) that theorems ask for.
-- * A buffer is a list of bytes, and a pointer into it an offset. `set` past the end changes nothing and
--   a read past the end is 0; every offset of the code is a constant below 192, and theorems ask for
--   the length that the C arrays have. A pointer that may be null is an Option.
-- * A function that changes static variables takes the slot and returns it. A call that does not
--   return is the slot that it leaves to the next boot. A loop with a bound recurses on the rounds
--   that are left.
-- * The start-up code works on a memory from addresses to bytes. Symbols are the addresses that the
--   linker script yields, and IsLaidOut says that they come in its order and are aligned. `fuel`
--   tests of each loop are enough if they reach, in words, from the start of .data to .noinit.
-- * Two loops of the demo have no bound in their code: the wait for the serial port takes `fuel` reads
--   of the status register for each character, and the delay `rounds` tests of its counter. `none` is
--   a call that has not returned by then. IsLive says that the port is ready once in every `fuel`
--   reads; with it, and more than 4000 rounds for each millisecond, the calls do return.
-- * What the hardware answers is given: the values of the status register as a function of the number
--   of the read, and as `result` what a caller finds in the register of the result of a demo's
--   callback, which returns none.
-- * The mock generator takes the faults of its option --fault, and numbers that are not negative.
-- * A file of the decoder is the list of its characters or bytes, or not there. `zlib.crc32` is a
--   parameter, of which theorems ask that it is the CRC-32 of the format.
-- * What the decoder prints is a text, or the object that `json.dumps` turns into one. The
--   generator writes to a directory, a function from paths to contents, where a later write to a path
--   replaces the earlier one. Paths are of one file if they are spelled alike; `with_suffix` of
--   pathlib is a parameter.
-- * A callback is a function on a state of its own, and does not touch the slot.
-- * The machine is little-endian, as Cortex-M is: the store of the magic as one word is that of its
--   four bytes, and happens at once. But for Slot/Events and Port/CortexM/Publish, stores land in
--   program order. There a store is held back until it lands, before or after any other that touches
--   none of its bytes, and `dmb` and `dsb` wait until all have landed. The compiler is taken to make
--   the byte stores that the code has.
-- * What assembly and device registers yield is given with the machine (Machine, Core), and the bounds
--   of RAM and the architecture with the build (Build). The prologue that the compiler gives to the
--   fault handler moves MSP and writes the stack; what it leaves is given, too (Prologue).
--
-- Not modelled: what a reset does to the machine but for the memory that the start-up code finds, the
-- linker script, whose symbols are given, the text that `json.dumps` makes of its object, the parsing
-- of options, what the generator prints, `abort` of a host build, the tests, and the build files. They
-- are instructions, linker placement, library code and test data, with no state that the parts above
-- read.
pub mod Base
pub mod Bits
pub mod Wire
pub mod Crc
pub mod Dump
pub mod Format
pub mod Fields
pub mod Codec
pub mod Slot
pub mod Export
pub mod Tag
pub mod Port
pub mod Trigger
pub mod Boot
pub mod Cell
pub mod Demo
pub mod Decoder
pub mod Mock
pub mod Postmortem
mod Tests
