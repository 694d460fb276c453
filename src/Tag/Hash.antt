-- ===== src/Tag/Hash.antt =====
-- The hash of a tag is FNV-1a of its first `max_len` characters.
use panicdump.Base.{
  ℕ, zero, suc, ◌+◌, ◌*◌, ◌^◌, ◌%◌, ◌≤◌, ◌<◌, ◌≡◌, ◌≢◌, refl, sym, true, ap, ◌∙◌, arith, List, [],
  ◌∷◌, some, bit_xor, ◌!=◌, if◌then◌else◌, u32, take, length, get_or, ◌++◌,
}
use mathlib.Core.Path.{fun_ext}
use panicdump.Bits.Xor.{xor-lt, xor_inj, xor_inj_right}
use panicdump.Tag.{hash_byte, hash_loop, reason_tag_hash_n}

-- The memory at a pointer to a string: its characters, then NUL.
abbrev pub c_string : List ℕ → ℕ → ℕ
c_string text i = get_or text i 0

-- Characters of a string: bytes, and none of them NUL.
abbrev pub IsText : List ℕ → Type 0
IsText [] = Unit
IsText (c ∷ text) = (0 < c) × (c < 256) × IsText text

-- 32-bit FNV-1a over a list of bytes.
unfoldable pub fnv1a : ℕ → List ℕ → ℕ
fnv1a hash [] = hash
fnv1a hash (c ∷ text) = fnv1a (bit_xor hash c * 16777619 % 4294967296) text

-- From any index, the loop hashes the characters that are left.
hash_loop_shift :
    (tag : ℕ → ℕ) (i left hash : ℕ)
    → hash_loop tag (i + 1) left hash ≡ hash_loop (λ j. tag (j + 1)) i left hash
unfolding hash_loop
hash_loop_shift tag i zero hash = refl
hash_loop_shift tag i (suc left) hash =
    ap (λ n. if tag (i + 1) != 0 then n else hash)
      (hash_loop_shift tag (i + 1) left (hash_byte hash (tag (i + 1))))

-- Behind its first character a string is the string of the others.
c_string-tail : (c : ℕ) (text : List ℕ) → (λ j. c_string (c ∷ text) (j + 1)) ≡ c_string text
c_string-tail c text =
    fun_ext λ j. let e : j + 1 ≡ suc j = omega arith in ap (λ k. get_or (c ∷ text) k 0) e

nonzero_test : (c : ℕ) → 0 < c → (c != 0) ≡ true
nonzero_test c h = ground arith

hash_loop-fnv1a :
    (text : List ℕ) (left hash : ℕ)
    → IsText text
    → hash_loop (c_string text) 0 left hash ≡ fnv1a hash (take left text)
unfolding hash_loop fnv1a hash_byte
hash_loop-fnv1a text zero hash h = refl
hash_loop-fnv1a [] (suc left) hash h = refl
hash_loop-fnv1a (c ∷ text) (suc left) hash h =
    let next = hash_byte hash c in
    rw (nonzero_test c h.0) (
      hash_loop_shift (c_string (c ∷ text)) 0 left next
      ∙ ap (λ tag. hash_loop tag 0 left next) (c_string-tail c text)
      ∙ hash_loop-fnv1a text left next h.2)

-- The hash of a tag, a text without NUL, is 32-bit FNV-1a of its characters, of the first `max_len` if it is longer.
pub hash_n-fnv1a :
    (text : List ℕ) (max_len : ℕ)
    → IsText text
    → reason_tag_hash_n (some (c_string text)) max_len ≡ fnv1a 2166136261 (take max_len text)
unfolding reason_tag_hash_n
hash_n-fnv1a text max_len h = hash_loop-fnv1a text max_len 2166136261 h

hash_loop_reads :
    (f g : ℕ → ℕ) (i left hash : ℕ)
    → ((j : ℕ) → i ≤ j → j < i + left → f j ≡ g j)
    → hash_loop f i left hash ≡ hash_loop g i left hash
unfolding hash_loop
hash_loop_reads f g i zero hash same = refl
hash_loop_reads f g i (suc left) hash same =
    ap (λ c. if c != 0 then hash_loop f (i + 1) left (hash_byte hash c) else hash)
      (same i (omega arith) (omega arith))
    ∙ ap (λ n. if g i != 0 then n else hash)
        (hash_loop_reads f g (i + 1) left (hash_byte hash (g i))
          λ j p q. same j (omega arith) (omega arith))

-- No character at `max_len` or behind is read, whether or not the string has ended.
pub hash_n-reads :
    (f g : ℕ → ℕ) (max_len : ℕ)
    → ((j : ℕ) → j < max_len → f j ≡ g j)
    → reason_tag_hash_n (some f) max_len ≡ reason_tag_hash_n (some g) max_len
unfolding reason_tag_hash_n
hash_n-reads f g max_len same =
    hash_loop_reads f g 0 max_len 2166136261 (λ j p q. same j (omega arith))

pub fnv1a-lt : (hash : ℕ) (text : List ℕ) → hash < 2 ^ 32 → fnv1a hash text < 2 ^ 32
unfolding fnv1a
fnv1a-lt hash [] h = h
fnv1a-lt hash (c ∷ text) h = fnv1a-lt (bit_xor hash c * 16777619 % 4294967296) text (omega arith)

-- The prime has an inverse modulo 2 ^ 32.
times_prime : (x : ℕ) → x < 2 ^ 32 → u32 (u32 (x * 16777619) * 899433627) ≡ x
times_prime x h = omega arith

mixed-lt : (hash c : ℕ) → hash < 2 ^ 32 → c < 256 → bit_xor hash c < 2 ^ 32
mixed-lt hash c h hc = xor-lt 32 hash c h (omega arith)

fnv1a_step_inj :
    (x y : ℕ) → x < 2 ^ 32 → y < 2 ^ 32 → u32 (x * 16777619) ≡ u32 (y * 16777619) → x ≡ y
fnv1a_step_inj x y hx hy e =
    sym (times_prime x hx) ∙ ap (λ t. u32 (t * 899433627)) e ∙ times_prime y hy

fnv1a_inj :
    (text : List ℕ) (a b : ℕ)
    → IsText text
    → a < 2 ^ 32
    → b < 2 ^ 32
    → fnv1a a text ≡ fnv1a b text
    → a ≡ b
unfolding fnv1a
fnv1a_inj [] a b h ha hb e = e
fnv1a_inj (c ∷ text) a b h ha hb e = xor_inj a b c (
    fnv1a_step_inj _ _ (mixed-lt a c ha h.1) (mixed-lt b c hb h.1)
      (fnv1a_inj text _ _ h.2 (omega arith) (omega arith) e))

take-IsText : (n : ℕ) (text : List ℕ) → IsText text → IsText (take n text)
take-IsText zero text h = tt
take-IsText (suc n) [] h = tt
take-IsText (suc n) (c ∷ text) h = (h.0, h.1, take-IsText n text h.2)

fnv1a-ne :
    (before after : List ℕ) (c d n hash : ℕ)
    → IsText (before ++ c ∷ after)
    → IsText (before ++ d ∷ after)
    → c ≢ d
    → length before < n
    → hash < 2 ^ 32
    → fnv1a hash (take n (before ++ c ∷ after)) ≢ fnv1a hash (take n (before ++ d ∷ after))
unfolding fnv1a
fnv1a-ne before after c d zero hash hc hd ne long h = absurd (omega arith)
fnv1a-ne [] after c d (suc n) hash hc hd ne long h = λ e. ne (
    xor_inj_right c d hash (
      fnv1a_step_inj _ _ (mixed-lt hash c h hc.1) (mixed-lt hash d h hd.1)
        (fnv1a_inj (take n after) _ _ (take-IsText n after hc.2) (omega arith) (omega arith) e)))
fnv1a-ne (b ∷ before) after c d (suc n) hash hc hd ne long h =
    fnv1a-ne before after c d n (bit_xor hash b * 16777619 % 4294967296) hc.2 hd.2 ne (omega arith)
      (omega arith)

-- Two texts that differ in one character have different hashes, if that character is among those
-- that are hashed.
pub hash_n-ne :
    (before after : List ℕ) (c d max_len : ℕ)
    → IsText (before ++ c ∷ after)
    → IsText (before ++ d ∷ after)
    → c ≢ d
    → length before < max_len
    → reason_tag_hash_n (some (c_string (before ++ c ∷ after))) max_len
      ≢ reason_tag_hash_n (some (c_string (before ++ d ∷ after))) max_len
hash_n-ne before after c d max_len hc hd ne long = λ e.
    let left = hash_n-fnv1a (before ++ c ∷ after) max_len hc in
    let right = hash_n-fnv1a (before ++ d ∷ after) max_len hd in
    fnv1a-ne before after c d max_len 2166136261 hc hd ne long (omega arith) (sym left ∙ e ∙ right)
