-- ===== src/Backlog/Requirements.antt =====
-- Requirements of pi/extensions/shared/canonical-backlog.ts: their check, and the cutting of a text.
use metagenda.Base.{
  ℕ, zero, suc, ◌==◌, List, [], ◌∷◌, ◌++◌, Bool, true, false, not, ◌&&◌, ◌||◌, leb, ltb,
  if◌then◌else◌, length, take, drop, any,
}
use metagenda.Base.Text.{Text, trim, is_empty}
use metagenda.Base.Value.{max_safe_integer}

-- `UNSAFE_CONTROL_CHARACTERS`
unfoldable pub is_unsafe : ℕ → Bool
is_unsafe c = leb c 8 || c == 11 || c == 12 || (leb 14 c && leb c 31) || c == 127

abbrev pub is_blank : Text → Bool
is_blank s = is_empty (trim s)

abbrev pub max_requirement : ℕ
max_requirement = 4000

unfoldable pub safe_requirement : Text → Bool
safe_requirement s = not (is_blank s) && leb (length s) max_requirement && not (any is_unsafe s)

-- The first half of a surrogate pair.
abbrev pub is_high : ℕ → Bool
is_high c = leb 55296 c && leb c 56319

-- Whether the last of the first n + 1 characters is one.
unfoldable pub ends_high : ℕ → Text → Bool
ends_high n [] = false
ends_high zero (c ∷ cs) = is_high c
ends_high (suc n) (c ∷ cs) = ends_high n cs

-- The length of the piece at the front of what is left of the text.
unfoldable pub piece_length : Text → ℕ
piece_length rest =
    if leb (length rest) max_requirement
    then length rest
    else if ends_high 3999 rest
    then 3999
    else max_requirement

-- `requirements` with a piece; the answer is empty where there are too many.
abbrev pub push : ℕ → List Text → Text → List Text × Bool
push maximum requirements piece =
    if is_blank piece
    then (requirements, true)
    else if length requirements == maximum
    then ([], false)
    else (requirements ++ piece ∷ [], true)

-- The loop over the text, on fuel: a round takes at least one character.
unfoldable pub cut_from : ℕ → ℕ → List Text → Text → List Text
cut_from zero maximum requirements rest = requirements
cut_from (suc fuel) maximum requirements [] = requirements
cut_from (suc fuel) maximum requirements (c ∷ cs) =
    let n = piece_length (c ∷ cs) in
    let (pushed, ok) = push maximum requirements (take n (c ∷ cs)) in
    let later = cut_from fuel maximum pushed (drop n (c ∷ cs)) in if ok then later else []

unfoldable pub backlog_requirements_from_text : Text → ℕ → List Text
backlog_requirements_from_text text maximum =
    if ltb max_safe_integer maximum || any is_unsafe text
    then []
    else cut_from (length text) maximum [] text
