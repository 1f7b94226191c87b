-- ===== src/Csv/View.antt =====
-- `string_view_splitter` of include/txl/csv.h, called until it is empty, against `parse_line`'s
-- lambda.
use libtxl.Prelude.{
  ℕ, zero, suc, ◌<◌, Bool, true, false, Bytes, Option, none, some, List, [], ◌∷◌, ◌++◌,
  if◌then◌else◌, ◌≡◌, refl, sym, ◌∙◌, arith, length,
}
use libtxl.Csv.Splitter.{Splitter, SplitStatus, push, ViewSplitter, next, next_loop, is_empty}
use libtxl.Csv.Line.{LineState, put_char, on_data, last_column}
use libtxl.Csv.RoundTrip.{columns}

-- A client that calls `next` until it returns `end_of_line` or `empty`: the columns that ended at a
-- delimiter, behind those given, and the one of `end_of_line`. Each call takes a character at
-- least: `length str + 1` calls are enough.
unfoldable pub collect : ℕ → ViewSplitter → List Bytes → List Bytes × Option Bytes
unfolding next
collect zero v cols = (cols, none)
collect (suc f) v cols =
    let (out, status, v') = next v in
    elim status [
      | SplitStatus.empty ↦ (cols, none)
      | SplitStatus.delimiter ↦ collect f v' (cols ++ (out ∷ []))
      | SplitStatus.end_of_line ↦ (cols, some out)
    ]

-- All these columns but a last one that is empty
unfoldable pub without_empty_last : List Bytes × Option Bytes → List Bytes
without_empty_last (cols, none) = cols
without_empty_last (cols, some []) = cols
without_empty_last (cols, some (b ∷ bs)) = cols ++ ((b ∷ bs) ∷ [])

without_empty_last-some :
    (out : Bytes) (cols : List Bytes) → without_empty_last (cols, some out) ≡ last_column out cols
unfolding without_empty_last last_column
without_empty_last-some [] cols = refl
without_empty_last-some (b ∷ bs) cols = refl

-- The lambda behind the characters that one loop of `next` takes.
abbrev behind : Bytes × Bool × ViewSplitter → List Bytes → LineState
behind (out, true, v) cols = record { sp = v.sp; buf = []; cols = cols ++ (out ∷ []) }
behind (out, false, v) cols = record { sp = v.sp; buf = out; cols = cols }

abbrev left : Bytes × Bool × ViewSplitter → Bytes
left (out, hit, v) = v.str

next_loop-on_data :
    (sp : Splitter) (str out : Bytes) (cols : List Bytes)
    → on_data (record { sp = sp; buf = out; cols = cols }) str
      ≡ on_data (behind (next_loop sp str out) cols) (left (next_loop sp str out))
unfolding on_data put_char next_loop
next_loop-on_data sp [] out cols = refl
next_loop-on_data sp (c ∷ cs) out cols = ground (
  arith,
  next_loop-on_data (push sp c).1 cs (out ++ (c ∷ [])) cols,
  next_loop-on_data (push sp c).1 cs out cols,
)

-- The loop stops at a delimiter, with less text than before, or at the end.
abbrev Stops : Bytes × Bool × ViewSplitter → ℕ → Type 0
Stops r n = (r.1 ≡ true → length r.2.str < n) × (r.1 ≡ false → r.2.str ≡ [])

next_loop-Stops : (sp : Splitter) (str out : Bytes) → Stops (next_loop sp str out) (length str)
unfolding next_loop
next_loop-Stops sp [] out = (λ h. cc, λ h. refl)
next_loop-Stops sp (c ∷ cs) out =
    let added = next_loop-Stops (push sp c).1 cs (out ++ (c ∷ [])) in
    let dropped = next_loop-Stops (push sp c).1 cs out in
    (λ h. ground (arith, added.0, dropped.0), λ h. ground (arith, added.1, dropped.1))

on_data-behind :
    (r : Bytes × Bool × ViewSplitter) (cols : List Bytes)
    → r.1 ≡ false
    → r.2.str ≡ []
    → columns (on_data (behind r cols) (left r)) ≡ last_column r.0 cols
unfolding on_data
on_data-behind (out, true, v) cols h e = cc
on_data-behind (out, false, v) cols h e = rw (e, on_data)

collect_at :
    (f : ℕ) (sp : Splitter) (str : Bytes) (cols : List Bytes)
    → length str < f
    → without_empty_last (collect f (record { sp = sp; str = str }) cols)
      ≡ columns (on_data (record { sp = sp; buf = []; cols = cols }) str)
unfolding collect is_empty without_empty_last
collect_at zero sp str cols h = absurd (omega arith)
collect_at (suc f) sp [] cols h = unfold on_data last_column in refl
collect_at (suc f) sp (c ∷ cs) cols h = rw (next_loop-on_data sp (c ∷ cs) [] cols) (
    turn (next_loop sp (c ∷ cs) []) (next_loop-Stops sp (c ∷ cs) [])
      (λ v kept l. collect_at f v.sp v.str kept l))
  where
    turn :
        (r : Bytes × Bool × ViewSplitter)
        → Stops r (suc (length cs))
        → ((v : ViewSplitter) (kept : List Bytes)
            → length v.str < f
            → without_empty_last (collect f v kept)
              ≡ columns (on_data (record { sp = v.sp; buf = []; cols = kept }) v.str))
        → without_empty_last
            (elim (if r.1 then SplitStatus.delimiter else SplitStatus.end_of_line) [
              | SplitStatus.empty ↦ (cols, none)
              | SplitStatus.delimiter ↦ collect f r.2 (cols ++ (r.0 ∷ []))
              | SplitStatus.end_of_line ↦ (cols, some r.0)
            ])
          ≡ columns (on_data (behind r cols) (left r))
    turn (out, true, v) s ih = ih v (cols ++ (out ∷ [])) (omega (arith, s.0 refl))
    turn (out, false, v) s ih =
        without_empty_last-some out cols ∙ sym (on_data-behind (out, false, v) cols refl (s.1 refl))

-- Calling `next` until it returns `end_of_line` or `empty` gives the columns that `parse_line`'s
-- lambda and its last test give on the same text, but for one: when the column of `end_of_line` is
-- empty, `next` gives it and `parse_line` drops it. So it is from any state of the splitter, whatever
-- columns stand before, and with one call more than the text has characters or more.
pub collect-eq-columns :
    (f : ℕ) (v : ViewSplitter) (cols : List Bytes)
    → length v.str < f
    → columns (on_data (record { sp = v.sp; buf = []; cols = cols }) v.str)
      ≡ without_empty_last (collect f v cols)
unfolding collect is_empty
collect-eq-columns f v cols h = sym (collect_at f v.sp v.str cols h)
