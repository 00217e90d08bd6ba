-- ===== src/Base/Search.antt =====
-- Searches in a text for a part of it.
use metagenda.Base.{Bool, true, false, ◌&&◌, ◌||◌, ◌==◌, [], ◌∷◌, if◌then◌else◌}
use metagenda.Base.Text.{Text}

abbrev pub starts_with : Text → Text → Bool
starts_with [] xs = true
starts_with (p ∷ ps) [] = false
starts_with (p ∷ ps) (x ∷ xs) = p == x && starts_with ps xs

-- `text.split(heading, 1)[0]`
abbrev pub before_heading : Text → Text → Text
before_heading heading [] = []
before_heading heading (c ∷ cs) =
    if starts_with heading (c ∷ cs) then [] else c ∷ before_heading heading cs

abbrev pub includes : Text → Text → Bool
includes part [] = starts_with part []
includes part (c ∷ cs) = starts_with part (c ∷ cs) || includes part cs
