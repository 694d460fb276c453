-- ===== src/Tests/Mocks.antt =====
-- The generator of test vectors, with a CRC-32 of its own for zlib's.
use panicdump.Base.{
  ℕ, ◌≡◌, ◌⊎◌, refl, arith, List, true, false, not, ◌||◌, ◌++◌, none, some, length,
}
use panicdump.Crc
use panicdump.Codec.{validate_wire, decode_dump}
use panicdump.Codec.RoundTrip.{with_checksum}
use panicdump.Mock
use panicdump.Mock.{
  memmanage, hardfault, set_flags, build_dump, build_event, pack_header, pack_body,
}
use panicdump.Mock.Image.{mock_dump}
use panicdump.Mock.Valid.{build_dump-validate_wire}
use panicdump.Export.{codes}
use panicdump.Mock.Files
use panicdump.Mock.Files.{Options, Directory}
use panicdump.Mock.Files.Judged.{AreJudged, main-AreJudged}
use panicdump.Tests.Samples.{sample_dump, valid_hardfault}

abbrev zlib_crc32 : List ℕ → ℕ
zlib_crc32 s = Crc.crc32 s (length s)

same_crc32 : (s : List ℕ) → zlib_crc32 s ≡ Crc.crc32 s (length s)
same_crc32 s = refl

-- The vector of the repository has no flags and no sequence, so `set_flags` was not run for it.
vector_is_built : build_event zlib_crc32 hardfault 42 0 0 false false ≡ some valid_hardfault
unfolding build_event pack_header pack_body Mock.crc32 Crc.crc32 Crc.crc32_update Crc.crc_byte
vector_is_built = refl

build_dump-validate_wire_example :
    let (flags, sequence) = set_flags memmanage 0 0 in
    (w : List ℕ) × (build_dump zlib_crc32 memmanage 99 0 0 false false ≡ some w)
    × (validate_wire (some w) 192 ≡ not (false || false))
    × (((false || false) ≡ true)
        ⊎ (decode_dump (some sample_dump) (some w) 192
            ≡ (true, some (with_checksum (mock_dump memmanage 99 sequence flags)))))
build_dump-validate_wire_example =
    build_dump-validate_wire zlib_crc32 same_crc32 memmanage 99 0 0 false false sample_dump
      (omega arith) (omega arith) (omega arith)

-- A bad dump, whose text has the path of the dump.
abbrev text_output : Options
text_output = record {
  fault = memmanage;
  tag = 42;
  bad_crc = true;
  partial = false;
  hex_export = true;
  all = false;
  out = codes "mock_dump.txt";
}

main-AreJudged_example :
    (dir' : Directory) × (Files.main zlib_crc32
        (λ path suffix. codes "mock_dump" ++ suffix)
        text_output
        (λ path. none)
      ≡ some dir')
    × AreJudged zlib_crc32 false text_output (codes "mock_dump.txt") dir'
main-AreJudged_example =
    main-AreJudged zlib_crc32 same_crc32 (λ path suffix. codes "mock_dump" ++ suffix) text_output
      (λ path. none) (omega arith)
