-- ===== src/OptionParser/Parse.antt =====
-- What `parse` of include/txl/option_parser.h makes of a command line that is written from settings.
use libtxl.Prelude.{
  ℕ, ◌≡◌, refl, sym, ap, ◌∙◌, true, false, none, some, List, [], ◌∷◌, ◌++◌, append-nil,
  append_assoc, Bytes, ◌==◌, if◌then◌else◌,
}
use libtxl.OptionParser.Defs.{
  ValueType, str_value, bool_value, int32_value, Value, bool_val, str_val, int32_val, Opts,
  find_option, is_flag, dash, option_of, parsed, argument_required, assign, parse,
}

-- What a part of a command line says
pub data Setting : Type 0 where
  turn_on : (flag : ℕ) → Setting
  give : (flag : ℕ) → Bytes → Setting
  other : Bytes → Setting

abbrev pub option_text : ℕ → Bytes
option_text flag = dash ∷ flag ∷ []

abbrev pub args_of : List Setting → List Bytes
args_of [] = []
args_of (turn_on flag ∷ xs) = option_text flag ∷ args_of xs
args_of (give flag v ∷ xs) = option_text flag ∷ v ∷ args_of xs
args_of (other a ∷ xs) = a ∷ args_of xs

-- A flag that is turned on has no value, one that is given a value has one, and any other argument
-- names no option.
abbrev pub IsFor : Opts → Setting → Type 0
IsFor opts (turn_on flag) = find_option opts flag ≡ some bool_value
IsFor opts (give flag v) = (t : ValueType) × (find_option opts flag ≡ some t) × (is_flag t ≡ false)
IsFor opts (other a) = option_of opts a ≡ none

abbrev pub AllFor : Opts → List Setting → Type 0
AllFor opts [] = Unit
AllFor opts (x ∷ xs) = IsFor opts x × AllFor opts xs

-- The arguments that name no option, in order
abbrev pub others_of : List Setting → List Bytes
others_of [] = []
others_of (turn_on flag ∷ xs) = others_of xs
others_of (give flag v ∷ xs) = others_of xs
others_of (other a ∷ xs) = a ∷ others_of xs

module _ {I : Type 0} (atoi : Bytes → I) (opts : Opts) where
  -- What an argument stands for: itself, a Boolean, or the number that `std::atoi` reads in all of it
  abbrev pub value_of : ValueType → Bytes → Value I
  value_of str_value v = str_val v
  value_of bool_value v = bool_val true
  value_of int32_value v = int32_val (atoi v)

  -- The destinations after one setting: the one of the flag has the new value.
  abbrev pub updated : (ℕ → Value I) → ℕ → Value I → ℕ → Value I
  updated s flag v f = if f == flag then v else s f

  -- The destinations after the settings, each in turn
  abbrev pub apply_all : (ℕ → Value I) → List Setting → ℕ → Value I
  apply_all s [] = s
  apply_all s (turn_on flag ∷ xs) = apply_all (updated s flag (bool_val true)) xs
  apply_all s (give flag v ∷ xs) =
      apply_all (elim (find_option opts flag) [ none ↦ s | some t ↦ updated s flag (value_of t v) ])
        xs
  apply_all s (other a ∷ xs) = apply_all s xs

  parse_on :
      (s : ℕ → Value I) (u : List Bytes) (flag : ℕ) (rest : List Bytes)
      → find_option opts flag ≡ some bool_value
      → parse atoi opts s u (option_text flag ∷ rest)
        ≡ parse atoi opts (assign s flag (bool_val true)) u rest
  unfolding parse
  parse_on s u flag [] e = rw (parse, e) refl
  parse_on s u flag (x ∷ rest) e = rw (parse, e) refl

  parse_given :
      (s : ℕ → Value I) (u : List Bytes) (flag : ℕ) (v : Bytes) (t : ValueType) (rest : List Bytes)
      → find_option opts flag ≡ some t
      → is_flag t ≡ false
      → parse atoi opts s u (option_text flag ∷ v ∷ rest)
        ≡ parse atoi opts (updated s flag (value_of t v)) u rest
  unfolding parse
  parse_given s u flag v str_value rest e k = rw (parse, e) refl
  parse_given s u flag v bool_value rest e k = cc
  parse_given s u flag v int32_value rest e k = rw (parse, e) refl

  parse_other :
      (s : ℕ → Value I) (u : List Bytes) (a : Bytes) (rest : List Bytes)
      → option_of opts a ≡ none
      → parse atoi opts s u (a ∷ rest) ≡ parse atoi opts s (u ++ (a ∷ [])) rest
  unfolding parse
  parse_other s u a [] e = rw (parse, e) refl
  parse_other s u a (x ∷ rest) e = rw (parse, e) refl

  parse_behind :
      (xs : List Setting) (s : ℕ → Value I) (u rest : List Bytes)
      → AllFor opts xs
      → parse atoi opts s u (args_of xs ++ rest)
        ≡ parse atoi opts (apply_all s xs) (u ++ others_of xs) rest
  parse_behind [] s u rest all = rw (append-nil u) refl
  parse_behind (turn_on flag ∷ xs) s u rest (e, all) =
      parse_on s u flag (args_of xs ++ rest) e ∙ parse_behind xs _ u rest all
  parse_behind (give flag v ∷ xs) s u rest ((t, e, k), all) =
      rw (e) (parse_given s u flag v t (args_of xs ++ rest) e k ∙ parse_behind xs _ u rest all)
  parse_behind (other a ∷ xs) s u rest (e, all) =
      parse_other s u a (args_of xs ++ rest) e
      ∙ parse_behind xs s (u ++ (a ∷ [])) rest all
      ∙ ap (λ w. parse atoi opts (apply_all s xs) w rest) (append_assoc u (a ∷ []) (others_of xs))

  -- `parse` on a command line written from settings, each right for its option: every destination
  -- gets the last value it is given and the others keep theirs, and the arguments that name no
  -- option are told in order.
  pub parse-args_of :
      (xs : List Setting) (s : ℕ → Value I)
      → AllFor opts xs
      → parse atoi opts s [] (args_of xs) ≡ parsed (apply_all s xs) (others_of xs)
  unfolding parse
  parse-args_of xs s all =
      ap (parse atoi opts s []) (sym (append-nil (args_of xs))) ∙ parse_behind xs s [] [] all

  -- When an option that takes a value ends such a command line, `parse` throws, and the settings
  -- before it have been applied.
  parse_argument_required :
      (xs : List Setting) (s : ℕ → Value I) (flag : ℕ) (t : ValueType)
      → AllFor opts xs
      → find_option opts flag ≡ some t
      → is_flag t ≡ false
      → parse atoi opts s [] (args_of xs ++ (option_text flag ∷ []))
        ≡ argument_required (apply_all s xs) (others_of xs)
  unfolding parse
  parse_argument_required xs s flag t all e k =
      parse_behind xs s [] (option_text flag ∷ []) all ∙ rw (parse, e, k) refl
