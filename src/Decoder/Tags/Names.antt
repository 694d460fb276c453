-- ===== src/Decoder/Tags/Names.antt =====
-- The decoder names a software trigger whose tag it knows.
use mathlib.Core.List.{Memᴰ}
use panicdump.Base.{ℕ, ◌*◌, ◌%◌, ◌≡◌, refl, sym, ap, ◌∙◌, arith, List, [], ◌∷◌, some, take, bit_xor}
use panicdump.Bits.Fields.{and-mask}
use panicdump.Dump.{Dump}
use panicdump.Slot.{Slot, get}
use panicdump.Slot.Typed.{IsSlot}
use panicdump.Port.{Port}
use panicdump.Tag.Hash.{fnv1a, IsText}
use panicdump.Trigger.{trigger}
use panicdump.Trigger.Recorded.{text_pointer, trigger-user_tag}
use panicdump.Decoder.Tags.{hash_from, fnv1a_32, known_reason, reason_tags}

hash_from-fnv1a : (h : ℕ) (s : List ℕ) → hash_from h s ≡ fnv1a h s
unfolding hash_from fnv1a
hash_from-fnv1a h [] = refl
hash_from-fnv1a h (c ∷ s) =
    let mask = and-mask 32 (bit_xor h c * 0x01000193) in
    ap (λ n. hash_from n s) mask ∙ hash_from-fnv1a (bit_xor h c * 0x01000193 % 4294967296) s

record IsNamed (s : List ℕ) : Type 0 where
  pub text : IsText s
  pub whole : take 32 s ≡ s
  pub found : known_reason (fnv1a_32 s) ≡ some s

abbrev AllNamed : List (List ℕ) → Type 0
AllNamed [] = Unit
AllNamed (s ∷ rest) = IsNamed s × AllNamed rest

named : (names : List (List ℕ)) (s : List ℕ) → AllNamed names → Memᴰ s names → IsNamed s
named [] s h m = elim m [ ]
named (x ∷ rest) s h (Memᴰ.head e) = rw e h.0
named (x ∷ rest) s h (Memᴰ.tail m) = named rest s h.1 m

one : (s : List ℕ) → IsText s → take 32 s ≡ s → known_reason (fnv1a_32 s) ≡ some s → IsNamed s
one s t w f = record { text = t; whole = w; found = f }

all_named : AllNamed reason_tags
unfolding known_reason fnv1a_32
all_named = (
  one _ (omega arith) refl refl,
  (
    one _ (omega arith) refl refl,
    (
      one _ (omega arith) refl refl,
      (
        one _ (omega arith) refl refl,
        (
          one _ (omega arith) refl refl,
          (
            one _ (omega arith) refl refl,
            (one _ (omega arith) refl refl, (one _ (omega arith) refl refl, tt)),
          ),
        ),
      ),
    ),
  ),
)

-- After `panicdump_trigger` with one of the tags in KNOWN_REASON_TAGS, on any port whose values are in
-- range, the next boot finds a dump of a software trigger, whose user tag the decoder's table turns
-- back into that tag.
pub trigger-known_reason :
    {M : Type 0} (port : Port M) (m : M) (slot : Slot) (tag : List ℕ)
    → port.Sound m
    → IsSlot slot
    → Memᴰ tag reason_tags
    → (dump : Dump) × ((get (trigger port m slot (text_pointer (some tag)))).0 ≡ some dump)
      × (dump.fault_reason ≡ 5)
      × (known_reason dump.user_tag ≡ some tag)
unfolding fnv1a_32
trigger-known_reason port m slot tag sound typed member =
    let name = named reason_tags tag all_named member in
    let (dump, found, hash, reason) =
      trigger-user_tag port m slot (some tag) sound typed name.text in
    (
      dump,
      found,
      reason,
      ap known_reason
            (hash ∙ ap (fnv1a 2166136261) name.whole ∙ sym (hash_from-fnv1a 2166136261 tag))
          ∙ name.found,
    )
