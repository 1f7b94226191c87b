-- ===== src/FixedString/View.antt =====
-- What a string of include/txl/fixed_string.h holds after `copy_from`.
use libtxl.Prelude.{
  ℕ, zero, suc, ◌-◌, ◌≤◌, ◌<◌, ◌≡◌, min, true, Bool-cases, inl, inr, refl, ap, ◌∙◌, Option, some,
  List, [], ◌∷◌, ◌++◌, append-nil, length, length-append, length-take, length-drop, length-set,
  take, drop, set, ltb, ◌==◌, if◌then◌else◌, arith,
}
use libtxl.FixedString.Defs.{
  Kind, terminated, block, size, to_string_view, store, capacity, copy_to_string, copy_to_block,
  copy_from,
}

-- The characters in front of the first zero
unfoldable pub until_zero : List ℕ → List ℕ
until_zero [] = []
until_zero (c ∷ cs) = let rest = c ∷ until_zero cs in if c == 0 then [] else rest

size-le-length : (cs : List ℕ) → size cs ≤ length cs
unfolding size
size-le-length [] = omega arith
size-le-length (c ∷ cs) = elim (Bool-cases (c == 0)) [
  | inl e ↦ rw (e) (omega arith)
  | inr e ↦ rw (e) (omega (arith, size-le-length cs))
]

take-size : (cs : List ℕ) → take (size cs) cs ≡ until_zero cs
unfolding size until_zero
take-size [] = refl
take-size (c ∷ cs) = elim (Bool-cases (c == 0)) [
  | inl e ↦ rw (e) refl
  | inr e ↦ rw (e) (ap (λ ds. c ∷ ds) (take-size cs))
]

view-until_zero : (cs : List ℕ) → to_string_view cs ≡ until_zero cs
unfolding to_string_view
view-until_zero cs =
    let whole : min (length cs) (size cs) ≡ size cs = omega (arith, size-le-length cs) in
    rw (whole) (take-size cs)

until_zero-append : (xs ys : List ℕ) → until_zero (xs ++ (0 ∷ ys)) ≡ until_zero xs
unfolding until_zero
until_zero-append [] ys = refl
until_zero-append (x ∷ xs) ys = elim (Bool-cases (x == 0)) [
  | inl e ↦ rw (e) refl
  | inr e ↦ rw (e) (ap (λ ds. x ∷ ds) (until_zero-append xs ys))
]

-- The zero behind the characters that were copied
set-end :
    (n : ℕ) (s cs : List ℕ)
    → n ≤ length s
    → n < length cs
    → set (take n s ++ drop n cs) n 0 ≡ take n s ++ (0 ∷ drop (suc n) cs)
set-end n s [] h l = absurd (omega (arith, l))
set-end zero s (c ∷ cs) h l = refl
set-end (suc n) [] (c ∷ cs) h l = absurd (omega (arith, h))
set-end (suc n) (x ∷ s) (c ∷ cs) h l =
    ap (λ ds. x ∷ ds) (set-end n s cs (omega (arith, h)) (omega (arith, l)))

take-min : (n : ℕ) (s : List ℕ) → take (min (length s) n) s ≡ take n s
take-min zero s = let least : min (length s) 0 ≡ 0 = omega arith in rw (least) refl
take-min (suc n) [] = let least : min 0 (suc n) ≡ 0 = omega arith in rw (least) refl
take-min (suc n) (x ∷ s) =
    let less : min (suc (length s)) (suc n) ≡ suc (min (length s) n) = omega arith in
    rw (less) (ap (λ ds. x ∷ ds) (take-min n s))

drop-all : (cs : List ℕ) → drop (length cs) cs ≡ []
drop-all [] = refl
drop-all (c ∷ cs) = drop-all cs

copied-length :
    (n : ℕ) (s cs : List ℕ)
    → n ≤ length s
    → n ≤ length cs
    → length (take n s ++ drop n cs) ≡ length cs
copied-length n s cs h l =
    omega (arith, h, l, length-append (take n s) (drop n cs), length-take n s, length-drop n cs)

-- The string that `copy_from` leaves: of the same length, and seen as `shown`
pub record Copied (result : Option (List ℕ)) (count : ℕ) (shown : List ℕ) : Type 0 where
  pub to : List ℕ
  pub result_eq : result ≡ some to
  pub kept : length to ≡ count
  pub view_eq : to_string_view to ≡ shown

-- A string with the characters of `s` in front, and a zero behind them
ended :
    (s cs : List ℕ) (room : ℕ)
    → room ≤ length cs
    → min (length s) room < length cs
    → Copied
        (store
          (min (length s) room)
          0
          (take (min (length s) room) s ++ drop (min (length s) room) cs))
        (length cs)
        (until_zero (take room s))
unfolding store
ended s cs room h l =
    let n = min (length s) room in
    let fits : n ≤ length s = omega arith in
    let front = take n s in
    let count : length (front ++ drop n cs) ≡ length cs =
      copied-length n s cs fits (omega (arith, l)) in
    let inside : ltb n (length (front ++ drop n cs)) ≡ true = ground (arith, count, l) in
    let written : set (front ++ drop n cs) n 0 ≡ front ++ (0 ∷ drop (suc n) cs) =
      set-end n s cs fits l in
    record {
      to = set (front ++ drop n cs) n 0;
      result_eq = rw (inside) refl;
      kept = length-set (front ++ drop n cs) n 0 ∙ count;
      view_eq =
          view-until_zero (set (front ++ drop n cs) n 0)
          ∙ ap until_zero written
          ∙ until_zero-append front (drop (suc n) cs)
          ∙ ap until_zero (take-min room s);
    }

-- `copy_from`, on a `fixed_string` or a `string_block` with any content, returns without an access
-- behind the end. The string keeps its length, and is seen as the characters of `s` that fit in its
-- capacity, up to the first zero among them.
pub copy_from-Copied :
    (kind : Kind) (s cs : List ℕ)
    → 1 ≤ length cs
    → Copied (copy_from kind s cs) (length cs) (until_zero (take (capacity kind cs) s))
unfolding copy_to_string copy_to_block capacity
copy_from-Copied terminated s cs h = ended s cs (length cs - 1) (omega arith) (omega (arith, h))
copy_from-Copied block s cs h = elim (Bool-cases (ltb (min (length s) (length cs)) (length cs))) [
  | inl e ↦ rw (copy_to_block, e) (ended s cs (length cs) (omega arith) (ground (arith, e)))
  | inr e ↦
      let full : min (length s) (length cs) ≡ length cs = ground (arith, e) in
      let fits : length cs ≤ length s = omega (arith, full) in
      record {
        to = take (length cs) s ++ drop (length cs) cs;
        result_eq = rw (copy_to_block, e, full) refl;
        kept = copied-length (length cs) s cs fits (omega arith);
        view_eq =
            view-until_zero (take (length cs) s ++ drop (length cs) cs)
            ∙ ap until_zero (
                ap (λ ds. take (length cs) s ++ ds) (drop-all cs)
                ∙ append-nil (take (length cs) s));
      }
]
