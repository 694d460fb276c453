-- ===== src/Mock/Files.antt =====
-- `main` of tools/make_mock_dump.py, with the directory that it writes to; of `pathlib`, `with_suffix`
-- is a parameter. Two paths are of one file if they are spelled alike. `none` is an error of
-- `build_dump`. A text is written as it is, as on a system whose lines end in LF.
pub mod Content
pub mod Judged
use panicdump.Base.{
  ℕ, List, [], ◌∷◌, ◌++◌, Bool, true, false, ◌&&◌, ◌==◌, Option, some, ◌>>=◌, if◌then◌else◌,
}
use panicdump.Export.{codes}
use panicdump.Mock.{
  Fault, hardfault, memmanage, usagefault, sw_trigger, build_dump, build_hex_framed,
}

-- The arguments of `build_dump` in VARIANTS, its defaults included, and the name.
pub record Variant : Type 0 where
  pub name : List ℕ
  pub fault : Fault
  pub user_tag : ℕ
  pub corrupt_crc : Bool
  pub partial : Bool

abbrev variant : List ℕ → Fault → ℕ → Variant
variant name fault user_tag = record {
  name = name;
  fault = fault;
  user_tag = user_tag;
  corrupt_crc = false;
  partial = false;
}

-- VARIANTS
abbrev pub variants : List Variant
variants =
    variant (codes "valid_hardfault") hardfault 42
    ∷ variant (codes "valid_memmanage") memmanage 99
    ∷ variant (codes "valid_usagefault") usagefault 7
    ∷ variant (codes "valid_sw_trigger") sw_trigger 0
    ∷ record (variant (codes "bad_crc") hardfault 42) { corrupt_crc = true }
    ∷ record (variant (codes "partial") hardfault 42) { partial = true }
    ∷ []

-- The options, as `parse_args` returns them.
pub record Options : Type 0 where
  pub fault : Fault
  pub tag : ℕ
  pub bad_crc : Bool
  pub partial : Bool
  pub hex_export : Bool
  pub all : Bool
  pub out : List ℕ

abbrev pub same_path : List ℕ → List ℕ → Bool
same_path [] [] = true
same_path (c ∷ p) (d ∷ q) = c == d && same_path p q
same_path p q = false

-- The content of the file at each path, if there is one.
abbrev pub Directory : Type 0
Directory = List ℕ → Option (List ℕ)

-- `write_bytes` and `write_text`: what was at the path is lost.
unfoldable pub write_file : List ℕ → List ℕ → Directory → Directory
write_file path content dir p = if same_path p path then some content else dir p

module _ (zlib_crc32 : List ℕ → ℕ) where
  unfoldable pub write_variant : Variant → Directory → Option Directory
  write_variant v dir = do
    data_bytes ← build_dump zlib_crc32 v.fault v.user_tag 0 0 v.corrupt_crc v.partial
    let path = codes "test_vectors/" ++ v.name
    let dir1 = write_file (path ++ codes ".bin") data_bytes dir
    some (write_file (path ++ codes ".txt") (build_hex_framed data_bytes) dir1)

  -- The loop over the variants.
  unfoldable pub write_variants : List Variant → Directory → Option Directory
  write_variants [] dir = some dir
  write_variants (v ∷ variants) dir = do dir' ← write_variant v dir; write_variants variants dir'

  module _ (with_suffix : List ℕ → List ℕ → List ℕ) where
    -- Without --all.
    unfoldable pub write_single : Options → Directory → Option Directory
    write_single args dir = do
      data_bytes ← build_dump zlib_crc32 args.fault args.tag 0 0 args.bad_crc args.partial
      let dir1 = write_file args.out data_bytes dir
      let txt_path = with_suffix args.out (codes ".txt")
      some
          (if args.hex_export then write_file txt_path (build_hex_framed data_bytes) dir1 else dir1)

    unfoldable pub main : Options → Directory → Option Directory
    main args dir = if args.all then write_variants variants dir else write_single args dir
