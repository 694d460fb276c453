-- ===== src/Decoder/Json/ReadBack.antt =====
-- The dump can be read back from the object that the decoder prints with `--json`.
use panicdump.Base.{
  ℕ, ◌+◌, ◌*◌, ◌/◌, ◌%◌, ◌<◌, ◌≡◌, refl, ap, ap₂, ◌∙◌, arith, List, [], ◌∷◌, Bool, true, false,
  some, ◌==◌, ◌&&◌, if◌then◌else◌, length,
}
use panicdump.Crc.{crc32}
use panicdump.Dump.{Regs, IsBytes}
use panicdump.Wire.Word.{take-IsBytes}
use panicdump.Export.{codes}
use panicdump.Fields.{decode_dump_fields}
use panicdump.Codec.{validate_wire}
use panicdump.Codec.Reencode.{decode-IsDump}
use panicdump.Decoder.Strings.{hex, lower_digit, hex_value, from_hex}
use panicdump.Decoder.Cfsr.{decode_cfsr}
use panicdump.Decoder.Frame.{loaded}
use panicdump.Decoder.Parse.{PanicDump}
use panicdump.Decoder.Parse.Agree.{decoded}
use panicdump.Decoder.Parse.Fields.{parse-decode_dump_fields}
use panicdump.Decoder.Json.{Value, number, flag, text, texts, numbers, json_object}
use panicdump.Decoder.Main.{Arguments, json, load, show_dump, show_loaded, show_parsed, main}

abbrev same_text : List ℕ → List ℕ → Bool
same_text [] [] = true
same_text (c ∷ s) (d ∷ t) = c == d && same_text s t
same_text s t = false

-- The value at a key, the first one if it is there twice.
abbrev pub value_at {ℓ} : {A : Type ℓ} → List ℕ → A → List (List ℕ × A) → A
value_at key default [] = default
value_at key default ((name, value) ∷ rest) =
    if same_text key name then value else value_at key default rest

abbrev to_number : Value → ℕ
to_number (number n) = n
to_number other = 0

abbrev to_flag : Value → Bool
to_flag (flag b) = b
to_flag other = false

abbrev to_text : Value → List ℕ
to_text (text s) = s
to_text other = []

abbrev to_numbers : Value → List (List ℕ × ℕ)
to_numbers (numbers dict) = dict
to_numbers other = []

abbrev to_regs : List (List ℕ × ℕ) → Regs
to_regs dict =
    let at = λ (key : List ℕ). value_at key 0 dict in
    record {
      r0 = at (codes "r0");
      r1 = at (codes "r1");
      r2 = at (codes "r2");
      r3 = at (codes "r3");
      r12 = at (codes "r12");
      lr = at (codes "lr");
      pc = at (codes "pc");
      xpsr = at (codes "xpsr");
      msp = at (codes "msp");
      psp = at (codes "psp");
      control = at (codes "control");
      primask = at (codes "primask");
      basepri = at (codes "basepri");
      faultmask = at (codes "faultmask");
      cfsr = at (codes "cfsr");
      hfsr = at (codes "hfsr");
      dfsr = at (codes "dfsr");
      mmfar = at (codes "mmfar");
      bfar = at (codes "bfar");
      afsr = at (codes "afsr");
      shcsr = at (codes "shcsr");
    }

-- The dump, from the values at its keys.
unfoldable pub read_object : List (List ℕ × Value) → PanicDump
read_object object =
    let at = λ (key : List ℕ). value_at key (number 0) object in
    record {
      magic = to_number (at (codes "magic"));
      version = to_number (at (codes "version"));
      header_size = to_number (at (codes "header_size"));
      total_size = to_number (at (codes "total_size"));
      flags = to_number (at (codes "flags"));
      arch_id = to_number (at (codes "arch_id"));
      fault_reason = to_number (at (codes "fault_reason"));
      sequence = to_number (at (codes "sequence"));
      user_tag = to_number (at (codes "user_tag"));
      crc32 = to_number (at (codes "crc32"));
      crc_ok = to_flag (at (codes "crc_ok"));
      regs = to_regs (to_numbers (at (codes "regs")));
      stack_sp = to_number (at (codes "stack_sp"));
      stack_bytes = to_number (at (codes "stack_bytes"));
      stack_data = from_hex (to_text (at (codes "stack_data")));
    }

lower_digit-value : (n : ℕ) → n < 16 → hex_value (lower_digit n) ≡ n
lower_digit-value n h = ground arith

from_hex-hex : (bytes : List ℕ) → IsBytes bytes → from_hex (hex bytes) ≡ bytes
unfolding from_hex hex
from_hex-hex [] h = refl
from_hex-hex (b ∷ bytes) h =
    let byte : hex_value (lower_digit (b / 16)) * 16 + hex_value (lower_digit (b % 16)) ≡ b =
      omega (
        arith,
        lower_digit-value (b / 16) (omega (arith, h.0)),
        lower_digit-value (b % 16) (omega arith),
      ) in
    ap₂ ◌∷◌ byte (from_hex-hex bytes h.1)

read_object-json_object : (d : PanicDump) → IsBytes d.stack_data → read_object (json_object d) ≡ d
unfolding read_object json_object
read_object-json_object d h =
    ap (λ data'. record d { stack_data = data' }) (from_hex-hex d.stack_data h)

abbrev pub to_json : Bool → Bool → Arguments
to_json hex forensic = record { hex = hex; json = true; verify = false; forensic = forensic }

-- If the file holds bytes that `panicdump_validate_wire` accepts, as they are or in a frame, the decoder with
-- `--json` exits with 0, and every field of the dump can be read from the object that it prints, at
-- its own name: each is the field that `panicdump_decode_dump` returns, with the first `stack_bytes`
-- bytes of the slice, and `crc_ok` is true. The key `exc_return` has the sequence, and `cfsr_decoded`
-- the names of the bits of CFSR. `zlib.crc32` is taken to be the CRC-32 of the format.
pub main-read_object :
    (zlib_crc32 : List ℕ → ℕ) (hex forensic : Bool) (content raw : List ℕ)
    → ((s : List ℕ) → zlib_crc32 s ≡ crc32 s (length s))
    → load hex content ≡ loaded raw
    → IsBytes raw
    → validate_wire (some raw) (length raw) ≡ true
    → let dump = decode_dump_fields raw in
      (object : List (List ℕ × Value)) × (main zlib_crc32 (to_json hex forensic) (some content)
        ≡ (json object, 0))
      × (read_object object ≡ decoded dump)
      × (value_at (codes "exc_return") (number 0) object ≡ number dump.sequence)
      × (value_at (codes "cfsr_decoded") (number 0) object ≡ texts (decode_cfsr dump.regs.cfsr))
unfolding main show_dump json_object
main-read_object zlib_crc32 hex forensic content raw zlib read bytes valid =
    let dump = decode_dump_fields raw in
    let fits = decode-IsDump raw bytes in
    (
      json_object (decoded dump),
      ap (show_loaded zlib_crc32 (to_json hex forensic)) read
          ∙ ap (show_parsed (to_json hex forensic))
              (parse-decode_dump_fields zlib_crc32 zlib raw bytes valid),
      read_object-json_object (decoded dump)
          (take-IsBytes dump.stack.stack_bytes dump.stack.slice fits.stack.slice_bytes),
      refl,
      refl,
    )
