-- ===== src/FixedString/Defs.antt =====
-- `fixed_string_base`, `fixed_string` and `string_block` of include/txl/fixed_string.h, on the `Size`
-- characters of the base as a list. A result `none` is an access behind their end.
use libtxl.Prelude.{
  ℕ, suc, ◌-◌, min, Bool, true, false, Option, none, some, List, [], ◌∷◌, ◌++◌, length, take, drop,
  set, ltb, ◌==◌, ◌&&◌, if◌then◌else◌,
}

-- A `fixed_string` keeps one character for the end; a `string_block` may use all.
pub data Kind : Type 0 where
  terminated : Kind
  block : Kind

-- The distance to the first zero, or to the end
unfoldable pub size : List ℕ → ℕ
size [] = 0
size (c ∷ cs) = let further = suc (size cs) in if c == 0 then 0 else further

unfoldable pub to_string_view : List ℕ → List ℕ
unfolding size
to_string_view cs = take (min (length cs) (size cs)) cs

-- `(*this)[index] = value`
unfoldable pub store : ℕ → ℕ → List ℕ → Option (List ℕ)
store i c cs = if ltb i (length cs) then some (set cs i c) else none

abbrev pub clear : List ℕ → Option (List ℕ)
clear cs = store 0 0 cs

abbrev pub same_chars : List ℕ → List ℕ → Bool
same_chars [] [] = true
same_chars [] (d ∷ ds) = false
same_chars (c ∷ cs) [] = false
same_chars (c ∷ cs) (d ∷ ds) = (c == d) && same_chars cs ds

-- `operator==` of two strings, and of a string and a view
unfoldable pub equal : List ℕ → List ℕ → Bool
unfolding size to_string_view
equal cs ds = (size ds == size cs) && same_chars (to_string_view cs) (to_string_view ds)

unfoldable pub equal_view : List ℕ → List ℕ → Bool
unfolding size to_string_view
equal_view cs s = (length s == size cs) && same_chars s (to_string_view cs)

unfoldable pub capacity : Kind → List ℕ → ℕ
capacity terminated cs = length cs - 1
capacity block cs = length cs

unfoldable pub copy_to_string : List ℕ → List ℕ → Option (List ℕ)
unfolding capacity store
copy_to_string s cs =
    let n = min (length s) (capacity terminated cs) in store n 0 (take n s ++ drop n cs)

unfoldable pub copy_to_block : List ℕ → List ℕ → Option (List ℕ)
unfolding capacity store
copy_to_block s cs =
    let n = min (length s) (capacity block cs) in
    let copied = take n s ++ drop n cs in
    if ltb n (capacity block cs) then store n 0 copied else some copied

abbrev pub copy_from : Kind → List ℕ → List ℕ → Option (List ℕ)
copy_from terminated s cs = copy_to_string s cs
copy_from block s cs = copy_to_block s cs

-- `operator=` from another string of the same type that is moved: the other one is cleared.
unfoldable pub assign_moved : Kind → List ℕ → List ℕ → Option (List ℕ × List ℕ)
unfolding copy_to_string copy_to_block to_string_view store
assign_moved kind other cs = elim (copy_from kind (to_string_view other) cs) [
  | none ↦ none
  | some ds ↦ elim (clear other) [ none ↦ none | some left ↦ some (ds, left) ]
]
