-- ===== src/Mock/Files/Judged.antt =====
-- tools/decode_panicdump.py on the files that tools/make_mock_dump.py writes.
use panicdump.Base.{
  ℕ, ◌<◌, ◌^◌, ◌≡◌, refl, ap, ◌∙◌, arith, List, [], ◌∷◌, ◌++◌, Bool, true, false, ◌&&◌, ◌⊎◌, some,
  length, if◌then◌else◌, inl, inr,
}
use panicdump.Crc.{crc32}
use panicdump.Export.{codes}
use panicdump.Mock.{hardfault, memmanage, usagefault, sw_trigger, build_hex_framed}
use panicdump.Mock.Files.{
  Variant, variants, Options, Directory, same_path, write_file, write_variant, write_variants,
  write_single, main,
}
use panicdump.Mock.Files.Content.{is_spoiled, IsJudged, BuiltJudged, built-IsJudged}

same_path_self : (p : List ℕ) → same_path p p ≡ true
same_path_self [] = refl
same_path_self (c ∷ p) = ground (arith, same_path_self p)

module _ (zlib_crc32 : List ℕ → ℕ) where
  -- The file at a path is there, and is judged so.
  abbrev pub HoldsJudged : Directory → List ℕ → Bool × Bool → Type 0
  HoldsJudged dir path kind =
      (content : List ℕ) × (dir path ≡ some content) × IsJudged zlib_crc32 kind content

  -- The two files of each variant.
  abbrev pub VariantsJudged : List Variant → Directory → Type 0
  VariantsJudged [] dir = Unit
  VariantsJudged (v ∷ vs) dir =
      let path = codes "test_vectors/" ++ v.name in
      let spoiled = is_spoiled v.corrupt_crc v.partial in
      HoldsJudged dir (path ++ codes ".bin") (false, spoiled)
      × HoldsJudged dir (path ++ codes ".txt") (true, spoiled)
      × VariantsJudged vs dir

  -- The text, if it was asked for, and at the path of the output the dump, or the text if that has the
  -- same path.
  abbrev pub SingleJudged : Options → List ℕ → Directory → Type 0
  SingleJudged args txt_path dir =
      let spoiled = is_spoiled args.bad_crc args.partial in
      ((args.hex_export ≡ false) ⊎ HoldsJudged dir txt_path (true, spoiled))
      × (((args.hex_export && same_path args.out txt_path ≡ true)
            × HoldsJudged dir args.out (true, spoiled))
          ⊎ ((args.hex_export && same_path args.out txt_path ≡ false)
              × HoldsJudged dir args.out (false, spoiled)))

  abbrev pub AreJudged : Bool → Options → List ℕ → Directory → Type 0
  AreJudged true args txt_path dir = VariantsJudged variants dir
  AreJudged false args txt_path dir = SingleJudged args txt_path dir

  module _ (zlib : (s : List ℕ) → zlib_crc32 s ≡ crc32 s (length s)) where
    abbrev AllBuilt : List Variant → Type 0
    AllBuilt [] = Unit
    AllBuilt (v ∷ vs) =
        BuiltJudged zlib_crc32 zlib v.fault v.user_tag v.corrupt_crc v.partial × AllBuilt vs

    abbrev after : (vs : List Variant) → AllBuilt vs → Directory → Directory
    after [] built dir = dir
    after (v ∷ vs) (b, bs) dir =
        let path = codes "test_vectors/" ++ v.name in
        after vs bs (
          write_file (path ++ codes ".txt") (build_hex_framed b.0)
            (write_file (path ++ codes ".bin") b.0 dir))

    write_variants-after :
        (vs : List Variant) (built : AllBuilt vs) (dir : Directory)
        → write_variants zlib_crc32 vs dir ≡ some (after vs built dir)
    unfolding write_variants write_variant
    write_variants-after [] built dir = refl
    write_variants-after (v ∷ vs) (b, bs) dir = rw b.1 (write_variants-after vs bs _)

    abbrev all_built : AllBuilt variants
    all_built = (
      built-IsJudged zlib_crc32 zlib hardfault 42 false false (omega arith),
      (
        built-IsJudged zlib_crc32 zlib memmanage 99 false false (omega arith),
        (
          built-IsJudged zlib_crc32 zlib usagefault 7 false false (omega arith),
          (
            built-IsJudged zlib_crc32 zlib sw_trigger 0 false false (omega arith),
            (
              built-IsJudged zlib_crc32 zlib hardfault 42 true false (omega arith),
              (built-IsJudged zlib_crc32 zlib hardfault 42 false true (omega arith), tt),
            ),
          ),
        ),
      ),
    )

    after-VariantsJudged :
        (built : AllBuilt variants) (dir : Directory)
        → VariantsJudged variants (after variants built dir)
    unfolding write_file
    after-VariantsJudged (b1, (b2, (b3, (b4, (b5, (b6, _)))))) dir = (
      (b1.0, refl, b1.2),
      (build_hex_framed b1.0, refl, b1.3),
      (
        (b2.0, refl, b2.2),
        (build_hex_framed b2.0, refl, b2.3),
        (
          (b3.0, refl, b3.2),
          (build_hex_framed b3.0, refl, b3.3),
          (
            (b4.0, refl, b4.2),
            (build_hex_framed b4.0, refl, b4.3),
            (
              (b5.0, refl, b5.2),
              (build_hex_framed b5.0, refl, b5.3),
              ((b6.0, refl, b6.2), (build_hex_framed b6.0, refl, b6.3), tt),
            ),
          ),
        ),
      ),
    )

    write_variants-AreJudged :
        (dir : Directory)
        → (dir' : Directory) × (write_variants zlib_crc32 variants dir ≡ some dir')
          × VariantsJudged variants dir'
    write_variants-AreJudged dir = (
      after variants all_built dir,
      write_variants-after variants all_built dir,
      after-VariantsJudged all_built dir,
    )

    write_file-path :
        (path content : List ℕ) (dir : Directory) → write_file path content dir path ≡ some content
    unfolding write_file
    write_file-path path content dir = rw (same_path_self path) refl

    module _ (with_suffix : List ℕ → List ℕ → List ℕ) where
      written-SingleJudged :
          (args : Options) (dir : Directory) (w : List ℕ) (hex_export same : Bool)
          → args.hex_export ≡ hex_export
          → same_path args.out (with_suffix args.out (codes ".txt")) ≡ same
          → let spoiled = is_spoiled args.bad_crc args.partial in
            IsJudged zlib_crc32 (false, spoiled) w
            → IsJudged zlib_crc32 (true, spoiled) (build_hex_framed w)
            → let txt_path = with_suffix args.out (codes ".txt") in
              SingleJudged args txt_path (
                if args.hex_export
                then write_file txt_path (build_hex_framed w) (write_file args.out w dir)
                else write_file args.out w dir)
      unfolding write_file
      written-SingleJudged args dir w true true asked same plain framed =
          let txt_path = with_suffix args.out (codes ".txt") in
          let text = build_hex_framed w in
          rw (asked, same)
            (
              inr (text, write_file-path txt_path text (write_file args.out w dir), framed),
              inl (refl, (text, refl, framed)),
            )
      written-SingleJudged args dir w true false asked same plain framed =
          let txt_path = with_suffix args.out (codes ".txt") in
          let text = build_hex_framed w in
          rw (asked, same)
            (
              inr (text, write_file-path txt_path text (write_file args.out w dir), framed),
              inr (refl, (w, write_file-path args.out w dir, plain)),
            )
      written-SingleJudged args dir w false same asked e plain framed =
          rw asked (inl refl, inr (refl, (w, write_file-path args.out w dir, plain)))

      write_single-AreJudged :
          (args : Options) (dir : Directory)
          → args.tag < 2 ^ 32
          → (dir' : Directory) × (write_single zlib_crc32 with_suffix args dir ≡ some dir')
            × SingleJudged args (with_suffix args.out (codes ".txt")) dir'
      unfolding write_single
      write_single-AreJudged args dir fits =
          let (w, built, plain, framed) =
            built-IsJudged zlib_crc32 zlib args.fault args.tag args.bad_crc args.partial fits in
          let txt_path = with_suffix args.out (codes ".txt") in
          (
            if args.hex_export
                then write_file txt_path (build_hex_framed w) (write_file args.out w dir)
                else write_file args.out w dir,
            rw built refl,
            written-SingleJudged args dir w args.hex_export (same_path args.out txt_path) refl refl
                plain framed,
          )

      branch :
          (args : Options) (dir : Directory) {all : Bool}
          → args.all ≡ all
          → main zlib_crc32 with_suffix args dir ≡ (
              if all
              then write_variants zlib_crc32 variants dir
              else write_single zlib_crc32 with_suffix args dir)
      unfolding main
      branch args dir same =
          ap
            (λ a.
              if a
              then write_variants zlib_crc32 variants dir
              else write_single zlib_crc32 with_suffix args dir)
            same

      main_branch :
          (args : Options) (dir : Directory) (all : Bool)
          → args.all ≡ all
          → args.tag < 2 ^ 32
          → (dir' : Directory) × (main zlib_crc32 with_suffix args dir ≡ some dir')
            × AreJudged all args (with_suffix args.out (codes ".txt")) dir'
      main_branch args dir true same fits =
          let (dir', written, judged) = write_variants-AreJudged dir in
          (dir', branch args dir same ∙ written, judged)
      main_branch args dir false same fits =
          let (dir', written, judged) = write_single-AreJudged args dir fits in
          (dir', branch args dir same ∙ written, judged)

      -- With a tag that is a word, the generator writes its files, whatever is in the directory: with `--all`
      -- the dump and the framed text of each of its variants, at the paths of the variant, and else the
      -- dump at the path of the output and, with `--hex-export`, its text at that path with the
      -- suffix .txt. The decoder, with `--hex` for a text and any other options, exits with 0 on
      -- exactly those that were not made with `corrupt_crc` or `partial`. Where a text is
      -- asked for and the path of the output is its path, the text is there and not the dump.
      -- `zlib.crc32` is taken to be the CRC-32 of the format.
      pub main-AreJudged :
          (args : Options) (dir : Directory)
          → args.tag < 2 ^ 32
          → (dir' : Directory) × (main zlib_crc32 with_suffix args dir ≡ some dir')
            × AreJudged args.all args (with_suffix args.out (codes ".txt")) dir'
      main-AreJudged args dir fits = main_branch args dir args.all refl fits
