-- ===== src/Decoder/Report/Page.antt =====
-- No line of a report has a newline in it.
use panicdump.Base.{
  ℕ, zero, suc, ◌+◌, ◌-◌, ◌/◌, ◌≢◌, arith, List, [], ◌∷◌, ◌++◌, Bool, if◌then◌else◌, ◌!=◌, bit_and,
  ◌<<<◌, replicate, take, length,
}
use panicdump.Export.{codes}
use panicdump.Decoder.Strings.{drop}
use panicdump.Decoder.Cfsr.{decode_cfsr}
use panicdump.Decoder.Parse.{PanicDump}
use panicdump.Decoder.Report.{
  hex08, decimal, summary_lines, core_lines, bit_lines, status_lines, hfsr_lines, rest_lines,
  hex_part, padded, chunk_line, chunk_lines, stack_lines, lines_to_cfsr, report_lines,
}
use panicdump.Decoder.Report.Split.{
  IsLine, AreLines, IsLine-append, AreLines-append, IsLine-if, AreLines-if, replicate-IsLine,
}
use panicdump.Decoder.Report.Lines.{
  hex08-IsLine, labelled, hex_part-IsLine, ascii_part-IsLine, decode_cfsr-AreLines,
  bit_lines-AreLines, decimal-IsLine, arch_text-IsLine, fault_text-IsLine, tag_text-IsLine,
}

blank : ◌≢◌ {A = ℕ} 32 10
blank e = absurd (omega (arith, e))

sep-IsLine : IsLine (replicate 60 45)
sep-IsLine = replicate-IsLine 60 45 (λ e. absurd (omega (arith, e)))

padded-IsLine : (text : List ℕ) → IsLine text → IsLine (padded text)
padded-IsLine text h =
    IsLine-append text (replicate (47 - length text) 32) h
      (replicate-IsLine (47 - length text) 32 blank)

chunk_line-IsLine : (address : ℕ) (chunk : List ℕ) → IsLine (chunk_line address chunk)
chunk_line-IsLine address chunk = IsLine-append (codes "  ") _ (omega arith) (
    IsLine-append (hex08 address) _ (hex08-IsLine address) (
      IsLine-append (codes ":  ") _ (omega arith) (
        IsLine-append (padded (hex_part chunk)) _
          (padded-IsLine (hex_part chunk) (hex_part-IsLine chunk))
          (IsLine-append (codes "  ") _ (omega arith) (ascii_part-IsLine chunk)))))

chunk_lines-AreLines :
    (stack_sp : ℕ) (stack_data : List ℕ) (i left : ℕ)
    → AreLines (chunk_lines stack_sp stack_data i left)
unfolding chunk_lines
chunk_lines-AreLines stack_sp stack_data i zero = tt
chunk_lines-AreLines stack_sp stack_data i (suc left) = (
  chunk_line-IsLine (stack_sp + i) (take 16 (drop i stack_data)),
  chunk_lines-AreLines stack_sp stack_data (i + 16) left,
)

line_if-AreLines : (b : Bool) (line : List ℕ) → IsLine line → AreLines (if b then line ∷ [] else [])
line_if-AreLines b line h = AreLines-if b (line ∷ []) [] (h, tt) tt

module _ (d : PanicDump) where
  summary_lines-AreLines : AreLines (summary_lines d)
  summary_lines-AreLines = (
    sep-IsLine,
    (
      omega arith,
      (
        sep-IsLine,
        (
          IsLine-append (codes "  version     : ") _ (omega arith) (decimal-IsLine d.version),
          (
            IsLine-append (codes "  arch        : ") _ (omega arith) (arch_text-IsLine d.arch_id),
            (
              IsLine-append (codes "  fault       : ") _ (omega arith)
                  (fault_text-IsLine d.fault_reason),
              (
                IsLine-append (codes "  user_tag    : ") _ (omega arith) (tag_text-IsLine d),
                (
                  labelled (codes "  exc_return  : 0x") d.sequence (omega arith),
                  (
                    IsLine-append (codes "  crc         : ") _ (omega arith)
                        (IsLine-if d.crc_ok _ _ (omega arith) (omega arith)),
                    (
                      IsLine-append (codes "  dump_size   : ") _ (omega arith) (
                          IsLine-append (decimal d.total_size) _ (decimal-IsLine d.total_size)
                            (omega arith)),
                      tt,
                    ),
                  ),
                ),
              ),
            ),
          ),
        ),
      ),
    ),
  )

  core_lines-AreLines : AreLines (core_lines d)
  core_lines-AreLines = (
    tt,
    (
      omega arith,
      (
        IsLine-append (codes "  pc          : 0x") _ (omega arith)
            (IsLine-append (hex08 d.regs.pc) _ (hex08-IsLine d.regs.pc) (omega arith)),
        (
          labelled (codes "  lr          : 0x") d.regs.lr (omega arith),
          (
            labelled (codes "  sp (msp)    : 0x") d.regs.msp (omega arith),
            (
              labelled (codes "  sp (psp)    : 0x") d.regs.psp (omega arith),
              (
                labelled (codes "  xpsr        : 0x") d.regs.xpsr (omega arith),
                (
                  labelled (codes "  r0          : 0x") d.regs.r0 (omega arith),
                  (
                    labelled (codes "  r1          : 0x") d.regs.r1 (omega arith),
                    (
                      labelled (codes "  r2          : 0x") d.regs.r2 (omega arith),
                      (
                        labelled (codes "  r3          : 0x") d.regs.r3 (omega arith),
                        (
                          labelled (codes "  r12         : 0x") d.regs.r12 (omega arith),
                          (
                            labelled (codes "  control     : 0x") d.regs.control (omega arith),
                            (
                              labelled (codes "  primask     : 0x") d.regs.primask (omega arith),
                              (
                                labelled (codes "  basepri     : 0x") d.regs.basepri (omega arith),
                                (
                                  labelled (codes "  faultmask   : 0x") d.regs.faultmask
                                      (omega arith),
                                  tt,
                                ),
                              ),
                            ),
                          ),
                        ),
                      ),
                    ),
                  ),
                ),
              ),
            ),
          ),
        ),
      ),
    ),
  )

  status_lines-AreLines : AreLines (status_lines d)
  status_lines-AreLines =
      (tt, (omega arith, (labelled (codes "  cfsr        : 0x") d.regs.cfsr (omega arith), tt)))

  rest_lines-AreLines : AreLines (rest_lines d)
  rest_lines-AreLines = (
    labelled (codes "  dfsr        : 0x") d.regs.dfsr (omega arith),
    (
      labelled (codes "  mmfar       : 0x") d.regs.mmfar (omega arith),
      (
        labelled (codes "  bfar        : 0x") d.regs.bfar (omega arith),
        (
          labelled (codes "  afsr        : 0x") d.regs.afsr (omega arith),
          (labelled (codes "  shcsr       : 0x") d.regs.shcsr (omega arith), tt),
        ),
      ),
    ),
  )

  stack_lines-AreLines : AreLines (stack_lines d)
  stack_lines-AreLines =
      let head = IsLine-append (codes "  [ Stack Slice @ 0x") _ (omega arith) (
        IsLine-append (hex08 d.stack_sp) _ (hex08-IsLine d.stack_sp) (
          IsLine-append (codes " (") _ (omega arith) (
            IsLine-append (decimal d.stack_bytes) (codes " bytes) ]") (decimal-IsLine d.stack_bytes)
              (omega arith)))) in
      let chunks = chunk_lines d.stack_sp d.stack_data 0 ((length d.stack_data + 15) / 16) in
      (
        tt,
        (
          head,
          AreLines-append chunks ([] ∷ replicate 60 45 ∷ [])
              (chunk_lines-AreLines d.stack_sp d.stack_data 0 ((length d.stack_data + 15) / 16))
              (tt, (sep-IsLine, tt)),
        ),
      )

  hfsr_lines-AreLines : AreLines (hfsr_lines d.regs.hfsr)
  hfsr_lines-AreLines =
      AreLines-append _ _ (line_if-AreLines (bit_and d.regs.hfsr (1 <<< 30) != 0) _ (omega arith))
        (line_if-AreLines (bit_and d.regs.hfsr (1 <<< 1) != 0) _ (omega arith))

  pub report_lines-AreLines : AreLines (report_lines d)
  unfolding report_lines
  report_lines-AreLines =
      AreLines-append (lines_to_cfsr d) _
        (AreLines-append (summary_lines d) (core_lines d ++ status_lines d) summary_lines-AreLines (
          AreLines-append (core_lines d) (status_lines d) core_lines-AreLines
            status_lines-AreLines))
        (AreLines-append (bit_lines (decode_cfsr d.regs.cfsr)) _
          (bit_lines-AreLines (decode_cfsr d.regs.cfsr) (decode_cfsr-AreLines d.regs.cfsr))
          (
            labelled (codes "  hfsr        : 0x") d.regs.hfsr (omega arith),
            AreLines-append (hfsr_lines d.regs.hfsr) _ hfsr_lines-AreLines (
                AreLines-append (rest_lines d) (stack_lines d) rest_lines-AreLines
                  stack_lines-AreLines),
          ))
