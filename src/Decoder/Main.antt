-- ===== src/Decoder/Main.antt =====
-- `main` of tools/decode_panicdump.py: what it prints, and its exit status. `json.dumps` is a library
-- function, so a JSON object is what is given to it.
pub mod Status
use panicdump.Base.{ℕ, List, Bool, true, false, Option, none, some, not, ◌&&◌, if◌then◌else◌}
use panicdump.Decoder.Frame.{FrameError, Loaded, loaded, refused, load_hex_framed}
use panicdump.Decoder.Json.{Value, json_object}
use panicdump.Decoder.Report.{render_report}
use panicdump.Decoder.Parse.{ParseError, PanicDump, Parsed, parsed, refused, parse}

-- The options, as `parse_args` returns them.
pub record Arguments : Type 0 where
  pub hex : Bool
  pub json : Bool
  pub verify : Bool
  pub forensic : Bool

pub data Printed : Type 0 where
  file_not_found crc_ok crc_fail json_refused : Printed
  loading_error : FrameError → Printed
  parsing_error : ParseError → Printed
  json : List (List ℕ × Value) → Printed
  report : List ℕ → Printed

-- The bytes of the dump, of a file that has been read: its characters with `--hex`, else its bytes.
abbrev pub load : Bool → List ℕ → Loaded
load true content = load_hex_framed content
load false content = loaded content

-- What is printed of a dump, and the exit status.
unfoldable pub show_dump : Arguments → PanicDump → Printed × ℕ
show_dump args dump =
    if args.verify
    then (if dump.crc_ok then (crc_ok, 0) else (crc_fail, 1))
    else if args.json && not dump.crc_ok && not args.forensic
    then (json_refused, 1)
    else (
      if args.json then json (json_object dump) else report (render_report dump),
      if not dump.crc_ok then 1 else 0,
    )

abbrev pub show_parsed : Arguments → Parsed → Printed × ℕ
show_parsed args (parsed dump) = show_dump args dump
show_parsed args (refused e) = (parsing_error e, 2)

module _ (zlib_crc32 : List ℕ → ℕ) where
  abbrev pub show_loaded : Arguments → Loaded → Printed × ℕ
  show_loaded args (loaded raw) = show_parsed args (parse zlib_crc32 raw)
  show_loaded args (refused e) = (loading_error e, 2)

  -- `none` is a file that is not there.
  unfoldable pub main : Arguments → Option (List ℕ) → Printed × ℕ
  unfolding show_dump
  main args none = (file_not_found, 2)
  main args (some content) = show_loaded args (load args.hex content)
