-- ===== src/Tests/Tags.antt =====
-- The theorems on the hash of a tag, at concrete texts.
use panicdump.Base.{ℕ, ◌≡◌, refl, arith, List, [], ◌∷◌, some, take}
use panicdump.Tag.{reason_tag_hash_n, hash_byte}
use panicdump.Tag.Hash.{c_string, fnv1a, hash_n-fnv1a}

-- "watchdog", as tools/decode_panicdump.py hashes it.
abbrev watchdog : List ℕ
watchdog = 119 ∷ 97 ∷ 116 ∷ 99 ∷ 104 ∷ 100 ∷ 111 ∷ 103 ∷ []

watchdog_hash : reason_tag_hash_n (some (c_string watchdog)) 32 ≡ 1143317826
unfolding reason_tag_hash_n hash_byte
watchdog_hash = refl

hash_n-fnv1a_example :
    reason_tag_hash_n (some (c_string watchdog)) 5 ≡ fnv1a 2166136261 (take 5 watchdog)
hash_n-fnv1a_example = hash_n-fnv1a watchdog 5 (omega arith)
