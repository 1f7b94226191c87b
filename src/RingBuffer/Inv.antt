-- ===== src/RingBuffer/Inv.antt =====
-- The representation invariant of a ring, and the values that it holds, oldest first.
use libtxl.Prelude.{
  ℕ, ◌+◌, ◌-◌, ◌≤◌, ◌<◌, ◌≡◌, ◌≢◌, Option, none, some, List, [], ◌∷◌, ◌++◌, arith, length, get_or,
  set, get_or-set_ne, ◌∙◌, if◌then◌else◌, ltb, ◌^◌, sym,
}
use libtxl.RingBuffer.Defs.{Ring, advance}

-- How many steps lead from slot `h` to slot `i`, going round at `c`.
abbrev pub dist : ℕ → ℕ → ℕ → ℕ
dist c h i = if ltb i h then i + c - h else i - h

pub advance-lt : (c i : ℕ) → c ≤ 2 ^ 63 → i < c → advance c i < c
unfolding advance
advance-lt c i s h = ground arith

-- One step forward is one step less to any other slot.
pub dist-advance :
    (c h i : ℕ)
    → c ≤ 2 ^ 63
    → h < c
    → i < c
    → 1 ≤ dist c h i
    → dist c (advance c h) i + 1 ≡ dist c h i
unfolding advance
dist-advance c h i s p q d = ground arith

pub eq_of_dist : (c h i : ℕ) → h < c → i < c → dist c h i ≡ 0 → h ≡ i
eq_of_dist c h i p q d = ground arith

pub dist_self : (c h : ℕ) → dist c h h ≡ 0
dist_self c h = ground arith

module _ {A : Type 0} where
  -- `q` lies in the `length q` slots from `h` on.
  abbrev pub Holds : List (Option A) → ℕ → ℕ → List A → Type 0
  Holds slots c h [] = Unit
  Holds slots c h (x ∷ q) = (get_or slots h none ≡ some x) × Holds slots c (advance c h) q

  -- The ring holds the values of `q`, oldest first.
  pub record IsRing (r : Ring A) (q : List A) : Type 0 where
    pub two_slots : 2 ≤ r.cap
    pub small : r.cap ≤ 2 ^ 63
    pub memory : r.cap ≤ length r.slots
    pub head_in : r.head < r.cap
    pub tail_in : r.tail < r.cap
    pub counted : length q ≡ dist r.cap r.head r.tail
    pub holds : Holds r.slots r.cap r.head q

  -- A write at the slot just behind the values, or further, leaves them.
  pub Holds-set :
      (slots : List (Option A)) (c h i : ℕ) (v : Option A) (q : List A)
      → c ≤ 2 ^ 63
      → h < c
      → i < c
      → length q ≤ dist c h i
      → Holds slots c h q
      → Holds (set slots i v) c h q
  Holds-set slots c h i v [] s p k l hs = tt
  Holds-set slots c h i v (x ∷ q) s p k l hs = (
    get_or-set_ne slots v none ne ∙ hs.0,
    Holds-set slots c (advance c h) i v q s (advance-lt c h s p) k
        (omega (arith, dist-advance c h i s p k (omega arith))) hs.1,
  )
    where
      ne : i ≢ h
      ne e = absurd (omega (arith, rw e at l, dist_self c h))

  -- The slot behind the values extends them.
  pub Holds-append :
      (slots : List (Option A)) (c h i : ℕ) (v : A) (q : List A)
      → c ≤ 2 ^ 63
      → h < c
      → i < c
      → length q ≡ dist c h i
      → get_or slots i none ≡ some v
      → Holds slots c h q
      → Holds slots c h (q ++ (v ∷ []))
  Holds-append slots c h i v [] s p k l g hs = (rw (eq_of_dist c h i p k (sym l)) g, tt)
  Holds-append slots c h i v (x ∷ q) s p k l g hs = (
    hs.0,
    Holds-append slots c (advance c h) i v q s (advance-lt c h s p) k
        (omega (arith, dist-advance c h i s p k (omega arith))) g hs.1,
  )
