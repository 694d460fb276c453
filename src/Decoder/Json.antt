-- ===== src/Decoder/Json.antt =====
-- The object that `main` of tools/decode_panicdump.py gives to `json.dumps`.
pub mod ReadBack
use panicdump.Base.{ℕ, List, [], ◌∷◌, Bool}
use panicdump.Dump.{Regs}
use panicdump.Export.{codes}
use panicdump.Decoder.Strings.{hex}
use panicdump.Decoder.Parse.{PanicDump}
use panicdump.Decoder.Dicts.{arch_name, fault_name}
use panicdump.Decoder.Cfsr.{decode_cfsr}

-- The values of its keys: numbers, `True` or `False`, a text, a list of texts, a dict of numbers.
pub data Value : Type 0 where
  number : ℕ → Value
  flag : Bool → Value
  text : List ℕ → Value
  texts : List (List ℕ) → Value
  numbers : List (List ℕ × ℕ) → Value

-- `dump.regs`, in the order of REGS_FIELDS.
abbrev regs_dict : Regs → List (List ℕ × ℕ)
regs_dict regs =
    (codes "r0", regs.r0)
    ∷ (codes "r1", regs.r1)
    ∷ (codes "r2", regs.r2)
    ∷ (codes "r3", regs.r3)
    ∷ (codes "r12", regs.r12)
    ∷ (codes "lr", regs.lr)
    ∷ (codes "pc", regs.pc)
    ∷ (codes "xpsr", regs.xpsr)
    ∷ (codes "msp", regs.msp)
    ∷ (codes "psp", regs.psp)
    ∷ (codes "control", regs.control)
    ∷ (codes "primask", regs.primask)
    ∷ (codes "basepri", regs.basepri)
    ∷ (codes "faultmask", regs.faultmask)
    ∷ (codes "cfsr", regs.cfsr)
    ∷ (codes "hfsr", regs.hfsr)
    ∷ (codes "dfsr", regs.dfsr)
    ∷ (codes "mmfar", regs.mmfar)
    ∷ (codes "bfar", regs.bfar)
    ∷ (codes "afsr", regs.afsr)
    ∷ (codes "shcsr", regs.shcsr)
    ∷ []

-- `out`: the fields of the dump, with the slice in hex, and four keys more.
unfoldable pub json_object : PanicDump → List (List ℕ × Value)
json_object d =
    (codes "magic", number d.magic)
    ∷ (codes "version", number d.version)
    ∷ (codes "header_size", number d.header_size)
    ∷ (codes "total_size", number d.total_size)
    ∷ (codes "flags", number d.flags)
    ∷ (codes "arch_id", number d.arch_id)
    ∷ (codes "fault_reason", number d.fault_reason)
    ∷ (codes "sequence", number d.sequence)
    ∷ (codes "user_tag", number d.user_tag)
    ∷ (codes "crc32", number d.crc32)
    ∷ (codes "crc_ok", flag d.crc_ok)
    ∷ (codes "regs", numbers (regs_dict d.regs))
    ∷ (codes "stack_sp", number d.stack_sp)
    ∷ (codes "stack_bytes", number d.stack_bytes)
    ∷ (codes "stack_data", text (hex d.stack_data))
    ∷ (codes "arch_name", text (arch_name d.arch_id (codes "unknown")))
    ∷ (codes "fault_name", text (fault_name d.fault_reason (codes "unknown")))
    ∷ (codes "cfsr_decoded", texts (decode_cfsr d.regs.cfsr))
    ∷ (codes "exc_return", number d.sequence)
    ∷ []
