-- ===== src/OptionParser/Tests.antt =====
-- Command lines for include/txl/option_parser.h.
use libtxl.Prelude.{ℕ, ◌+◌, ◌-◌, ◌≡◌, refl, true, false, List, [], ◌∷◌, Bytes}
use libtxl.OptionParser.Defs.{
  str_value, bool_value, int32_value, Value, str_val, bool_val, int32_val, Opts, parsed, parse,
}
use libtxl.OptionParser.Parse.{
  Setting, turn_on, give, other, args_of, others_of, AllFor, apply_all, parse-args_of,
}

-- A reader of decimal digits
abbrev digits_value : Bytes → ℕ
digits_value [] = 0
digits_value (c ∷ cs) = digits_value cs + (c - 48)

abbrev three_options : Opts
three_options = (118, bool_value) ∷ (111, str_value) ∷ (110, int32_value) ∷ []

abbrev cleared_values : ℕ → Value ℕ
cleared_values f = bool_val false

-- `-v -n 7 x -o -v`: what stands behind `-o` is its value, also when it looks like an option.
abbrev settings : List Setting
settings = turn_on 118 ∷ give 110 (55 ∷ []) ∷ other (120 ∷ []) ∷ give 111 (45 ∷ 118 ∷ []) ∷ []

settings-AllFor : AllFor three_options settings
settings-AllFor = (refl, ((int32_value, refl, refl), (refl, ((str_value, refl, refl), tt))))

parse-args_of_example :
    parse digits_value three_options cleared_values [] (args_of settings)
    ≡ parsed (apply_all digits_value three_options cleared_values settings) (others_of settings)
parse-args_of_example =
    parse-args_of digits_value three_options settings cleared_values settings-AllFor

-- The number, the string and the flag after the command line
settings_applied :
    (apply_all digits_value three_options cleared_values settings 110 ≡ int32_val 7)
    × (apply_all digits_value three_options cleared_values settings 111 ≡ str_val (45 ∷ 118 ∷ []))
    × (apply_all digits_value three_options cleared_values settings 118 ≡ bool_val true)
settings_applied = (refl, refl, refl)
