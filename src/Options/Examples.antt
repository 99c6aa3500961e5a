-- ===== src/Options/Examples.antt =====
-- Command lines, and the theorems of the options on them.
use huntind.Common.{ℕ, refl, List, [], ◌∷◌}
use huntind.Strings.{Text, codes}
use huntind.Settings.{default_option}
use huntind.Options.Valid.{IsValid, IfParsed, parse_options-IsValid}
use huntind.Options.{parse_options}

-- `-S 16 -J 4 -p 40`
abbrev answers : List (ℕ × Text)
answers = (b'S', codes "16") ∷ (b'J', codes "4") ∷ (b'p', codes "40") ∷ []

parse_options-IsValid_example : IfParsed IsValid (parse_options default_option 7 answers)
parse_options-IsValid_example =
    parse_options-IsValid default_option 7 answers ((3, refl), (0, refl))
