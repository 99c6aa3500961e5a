-- ===== src/Start/Ready.antt =====
-- A start on which everything that is asked for is there.
use huntind.Common.{false, [], ◌∷◌, false, Option, none, some}
use huntind.Strings.{Text}

-- The filter that the handle shall have.
abbrev pub requested : Text → Option Text
requested [] = none
requested (c ∷ text) = some (c ∷ text)
