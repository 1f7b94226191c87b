-- ===== src/OptionParser/Defs.antt =====
-- `option_parser` of include/txl/option_parser.h. A flag is a character; what it points to is the
-- value of its own destination, so a store gives each flag its value. `std::atoi` is a parameter.
use libtxl.Prelude.{
  ℕ, Bool, true, false, Option, none, some, List, [], ◌∷◌, ◌++◌, Bytes, ◌==◌, if◌then◌else◌,
}

pub data ValueType : Type 0 where
  str_value : ValueType
  bool_value : ValueType
  int32_value : ValueType

-- A destination's value, with the type of the integers
pub data Value (I : Type 0) : Type 0 where
  str_val : Bytes → Value I
  bool_val : Bool → Value I
  int32_val : I → Value I

-- `std::map<char, option>`
abbrev pub Opts : Type 0
Opts = List (ℕ × ValueType)

abbrev pub find_option : Opts → ℕ → Option ValueType
find_option [] flag = none
find_option (o ∷ opts) flag =
    let rest = find_option opts flag in if o.0 == flag then some o.1 else rest

abbrev pub is_flag : ValueType → Bool
is_flag bool_value = true
is_flag _ = false

-- `emplace` of the map, and whether the flag was new
abbrev pub emplace_option : Opts → ℕ → ValueType → Opts × Bool
emplace_option opts flag t = elim (find_option opts flag) [
  | none ↦ ((flag, t) ∷ opts, true)
  | some u ↦ (opts, false)
]

abbrev pub dash : ℕ
dash = 45

-- The option that an argument names: a dash and a flag that is known
abbrev pub option_of : Opts → Bytes → Option (ℕ × ValueType)
option_of opts (d ∷ flag ∷ []) =
    if d == dash
    then elim (find_option opts flag) [ none ↦ none | some t ↦ some (flag, t) ]
    else none
option_of opts _ = none

-- How `parse` ends, with the destinations and the arguments that `on_unknown_arg` was told
pub data Parsed (I : Type 0) : Type 0 where
  parsed : (ℕ → Value I) → List Bytes → Parsed I
  argument_required : (ℕ → Value I) → List Bytes → Parsed I

module _ {I : Type 0} where
  abbrev pub assign : (ℕ → Value I) → ℕ → Value I → ℕ → Value I
  assign s flag v f = if f == flag then v else s f

  -- What `add_flag` writes to the destination
  abbrev pub cleared : I → ValueType → Value I → Value I
  cleared nought str_value v = v
  cleared nought bool_value v = bool_val false
  cleared nought int32_value v = int32_val nought

  -- `add_flag`, and whether the flag was new. If it was not, the destination is another variable.
  abbrev pub add_flag : I → Opts → (ℕ → Value I) → ℕ → ValueType → Opts × (ℕ → Value I) × Bool
  add_flag nought opts s flag t =
      let (opts', emplaced) = emplace_option opts flag t in
      (opts', if emplaced then assign s flag (cleared nought t (s flag)) else s, emplaced)

  module _ (atoi : Bytes → I) where
    -- `process_option` with the argument behind the flag
    abbrev pub process_value : (ℕ → Value I) → ℕ → ValueType → Bytes → ℕ → Value I
    process_value s flag str_value arg = assign s flag (str_val arg)
    process_value s flag bool_value arg = assign s flag (bool_val true)
    process_value s flag int32_value arg = assign s flag (int32_val (atoi arg))

    -- The loop of `parse`, by the arguments that are left. Only an option that is no flag takes the
    -- argument behind it.
    unfoldable pub parse : Opts → (ℕ → Value I) → List Bytes → List Bytes → Parsed I
    parse opts s unknown [] = parsed s unknown
    parse opts s unknown (arg ∷ []) = elim (option_of opts arg) [
      | none ↦ parsed s (unknown ++ (arg ∷ []))
      | some (flag, t) ↦
          if is_flag t
          then parsed (process_value s flag t []) unknown
          else argument_required s unknown
    ]
    parse opts s unknown (arg ∷ value ∷ args) = elim (option_of opts arg) [
      | none ↦ parse opts s (unknown ++ (arg ∷ [])) (value ∷ args)
      | some (flag, bool_value) ↦
          parse opts (process_value s flag bool_value []) unknown (value ∷ args)
      | some (flag, str_value) ↦ parse opts (process_value s flag str_value value) unknown args
      | some (flag, int32_value) ↦ parse opts (process_value s flag int32_value value) unknown args
    ]
