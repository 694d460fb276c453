-- ===== src/Decoder/Report/Split.antt =====
-- Lines joined with newlines, and the text split into lines again.
use panicdump.Base.{
  ℕ, ◌≡◌, ◌≢◌, refl, ap, ◌∙◌, arith, List, [], ◌∷◌, ◌++◌, Bool, true, false, ◌==◌, if◌then◌else◌,
  replicate, zero, suc,
}
use panicdump.Decoder.Report.{join}

-- Without a newline.
abbrev pub IsLine : List ℕ → Type 0
IsLine [] = Unit
IsLine (c ∷ s) = (c ≢ 10) × IsLine s

abbrev pub AreLines : List (List ℕ) → Type 0
AreLines [] = Unit
AreLines (line ∷ lines) = IsLine line × AreLines lines

abbrev onto : ℕ → List (List ℕ) → List (List ℕ)
onto c [] = (c ∷ []) ∷ []
onto c (line ∷ lines) = (c ∷ line) ∷ lines

-- The lines of a text, of which the last one has no newline.
unfoldable pub split_lines : List ℕ → List (List ℕ)
split_lines [] = [] ∷ []
split_lines (c ∷ s) = let rest = split_lines s in if c == 10 then [] ∷ rest else onto c rest

split_lines-onto : (c : ℕ) (s : List ℕ) → c ≢ 10 → split_lines (c ∷ s) ≡ onto c (split_lines s)
unfolding split_lines
split_lines-onto c s h = ground arith

split_lines-last : (line : List ℕ) → IsLine line → split_lines line ≡ line ∷ []
unfolding split_lines
split_lines-last [] h = refl
split_lines-last (c ∷ s) h = split_lines-onto c s h.0 ∙ ap (onto c) (split_lines-last s h.1)

split_lines-first :
    (line rest : List ℕ) → IsLine line → split_lines (line ++ (10 ∷ rest)) ≡ line ∷ split_lines rest
unfolding split_lines
split_lines-first [] rest h = refl
split_lines-first (c ∷ s) rest h =
    split_lines-onto c (s ++ (10 ∷ rest)) h.0 ∙ ap (onto c) (split_lines-first s rest h.1)

pub split_lines-join :
    (line : List ℕ) (lines : List (List ℕ))
    → AreLines (line ∷ lines)
    → split_lines (join (line ∷ lines)) ≡ line ∷ lines
unfolding join
split_lines-join line [] h = split_lines-last line h.0
split_lines-join line (next ∷ lines) h =
    split_lines-first line (join (next ∷ lines)) h.0
    ∙ ap (λ l. line ∷ l) (split_lines-join next lines h.1)

pub IsLine-append : (s t : List ℕ) → IsLine s → IsLine t → IsLine (s ++ t)
IsLine-append [] t p q = q
IsLine-append (c ∷ s) t p q = (p.0, IsLine-append s t p.1 q)

pub AreLines-append : (s t : List (List ℕ)) → AreLines s → AreLines t → AreLines (s ++ t)
AreLines-append [] t p q = q
AreLines-append (line ∷ s) t p q = (p.0, AreLines-append s t p.1 q)

pub IsLine-if : (b : Bool) (s t : List ℕ) → IsLine s → IsLine t → IsLine (if b then s else t)
IsLine-if true s t p q = p
IsLine-if false s t p q = q

pub AreLines-if :
    (b : Bool) (s t : List (List ℕ)) → AreLines s → AreLines t → AreLines (if b then s else t)
AreLines-if true s t p q = p
AreLines-if false s t p q = q

pub replicate-IsLine : (n c : ℕ) → c ≢ 10 → IsLine (replicate n c)
replicate-IsLine zero c h = tt
replicate-IsLine (suc n) c h = (h, replicate-IsLine n c h)
