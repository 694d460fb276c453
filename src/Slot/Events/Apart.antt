-- ===== src/Slot/Events/Apart.antt =====
-- Stores that touch no byte in common can land in either order.
use panicdump.Base.{
  ℕ, zero, suc, ◌+◌, ◌≤◌, ◌<◌, ◌≡◌, ◌≢◌, ◌⊎◌, refl, sym, ap, ◌∙◌, arith, List, [], ◌∷◌, ◌++◌, set,
  u8, bit_and, ◌>>>◌,
}
use panicdump.Wire.{store_u32}
use panicdump.Slot.Stores.{Store, byte, word, apply, run}
use panicdump.Slot.Events.{Apart, AllApart}

set_comm : (xs : List ℕ) (i j v w : ℕ) → i ≢ j → set (set xs i v) j w ≡ set (set xs j w) i v
set_comm [] i j v w h = refl
set_comm (x ∷ xs) zero zero v w h = absurd (h refl)
set_comm (x ∷ xs) zero (suc j) v w h = refl
set_comm (x ∷ xs) (suc i) zero v w h = refl
set_comm (x ∷ xs) (suc i) (suc j) v w h = ap (λ l. x ∷ l) (set_comm xs i j v w (λ e. h (ap suc e)))

word-byte :
    (xs : List ℕ) (a v b w : ℕ)
    → (b < a) ⊎ (a + 4 ≤ b)
    → set (store_u32 xs a v) b w ≡ store_u32 (set xs b w) a v
unfolding store_u32
word-byte xs a v b w h =
    let p = u8 (bit_and v 0xff) in
    let q = u8 (bit_and (v >>> 8) 0xff) in
    let r = u8 (bit_and (v >>> 16) 0xff) in
    let t = u8 (bit_and (v >>> 24) 0xff) in
    set_comm (set (set (set xs a p) (a + 1) q) (a + 2) r) (a + 3) b t w (omega (arith, h))
    ∙ ap (λ l. set l (a + 3) t)
        (set_comm (set (set xs a p) (a + 1) q) (a + 2) b r w (omega (arith, h))
          ∙ ap (λ l. set l (a + 2) r)
              (set_comm (set xs a p) (a + 1) b q w (omega (arith, h))
                ∙ ap (λ l. set l (a + 1) q) (set_comm xs a b p w (omega (arith, h)))))

word-word :
    (xs : List ℕ) (a v b w : ℕ)
    → (a + 4 ≤ b) ⊎ (b + 4 ≤ a)
    → store_u32 (store_u32 xs a v) b w ≡ store_u32 (store_u32 xs b w) a v
unfolding store_u32
word-word xs a v b w h =
    let p = u8 (bit_and w 0xff) in
    let q = u8 (bit_and (w >>> 8) 0xff) in
    let r = u8 (bit_and (w >>> 16) 0xff) in
    let t = u8 (bit_and (w >>> 24) 0xff) in
    let xs1 = set xs b p in
    let xs2 = set xs1 (b + 1) q in
    ap (λ l. set (set (set l (b + 1) q) (b + 2) r) (b + 3) t)
      (word-byte xs a v b p (omega (arith, h)))
    ∙ ap (λ l. set (set l (b + 2) r) (b + 3) t) (word-byte xs1 a v (b + 1) q (omega (arith, h)))
    ∙ ap (λ l. set l (b + 3) t) (word-byte xs2 a v (b + 2) r (omega (arith, h)))
    ∙ word-byte (set xs2 (b + 2) r) a v (b + 3) t (omega (arith, h))

apply_comm :
    (wire : List ℕ) (s t : Store) → Apart s t → apply (apply wire s) t ≡ apply (apply wire t) s
unfolding apply
apply_comm wire (byte a v) (byte b w) h = set_comm wire a b v w h
apply_comm wire (byte a v) (word b w) h = sym (word-byte wire b w a v h)
apply_comm wire (word a v) (byte b w) h = word-byte wire a v b w h
apply_comm wire (word a v) (word b w) h = word-word wire a v b w h

-- A store that lands before earlier ones leaves the same to land.
pub run-land :
    (wire : List ℕ) (earlier later : List Store) (s : Store)
    → AllApart s earlier
    → run (apply wire s) (earlier ++ later) ≡ run wire (earlier ++ s ∷ later)
unfolding run
run-land wire [] later s h = refl
run-land wire (t ∷ earlier) later s h =
    ap (λ w. run w (earlier ++ later)) (apply_comm wire s t h.0)
    ∙ run-land (apply wire t) earlier later s h.1
