-- ===== src/Decoder/Tags.antt =====
-- The names of software triggers in tools/decode_panicdump.py, and the hash that finds them.
pub mod Names
use panicdump.Base.{
  ℕ, ◌*◌, List, [], ◌∷◌, Option, none, some, bit_and, bit_xor, ◌==◌, if◌then◌else◌,
}
use panicdump.Export.{codes}

-- The loop over the characters, from a hash on.
unfoldable pub hash_from : ℕ → List ℕ → ℕ
hash_from h [] = h
hash_from h (c ∷ s) = hash_from (bit_and (bit_xor h c * 0x01000193) 0xFFFFFFFF) s

unfoldable pub fnv1a_32 : List ℕ → ℕ
unfolding hash_from
fnv1a_32 s = hash_from 0x811C9DC5 s

abbrev pub reason_tags : List (List ℕ)
reason_tags =
    codes "assert"
    ∷ codes "watchdog"
    ∷ codes "stack_overflow"
    ∷ codes "malloc_fail"
    ∷ codes "hw_error"
    ∷ codes "comms_timeout"
    ∷ codes "sensor_fail"
    ∷ codes "invalid_state"
    ∷ []

-- `get` on the dict that has each of the strings at its hash: of two at one key the later one.
unfoldable pub dict_get : List (List ℕ) → ℕ → Option (List ℕ)
unfolding fnv1a_32
dict_get [] key = none
dict_get (s ∷ rest) key = elim (dict_get rest key) [
  | some found ↦ some found
  | none ↦ if fnv1a_32 s == key then some s else none
]

-- `KNOWN_REASON_TAGS.get`
unfoldable pub known_reason : ℕ → Option (List ℕ)
unfolding dict_get
known_reason key = dict_get reason_tags key
