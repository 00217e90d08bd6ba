-- ===== src/Todo/Listing.antt =====
-- What a listing shows (`formatTodoList` of pi/extensions/todo/state.ts): every open todo, and the
-- latest closed ones.
use metagenda.Base.{
  ℕ, suc, ◌+◌, ◌-◌, ◌≡◌, refl, ap, ◌∙◌, List, [], ◌∷◌, ◌++◌, map, true, not, if◌then◌else◌, ltb,
  min, length, length-append, length-map, length-drop, keep, arith, All,
}
use metagenda.Base.Sort.{sort, length-sort}
use metagenda.Todo.Types.{Todo}
use metagenda.Todo.Format.{
  is_closed, time_le, closed_le, indexed_from, by_recency, visible_closed, omitted_closed,
  omitted_line, list_lines, format_todo,
}

length-indexed_from : (n : ℕ) (ts : List Todo) → length (indexed_from n ts) ≡ length ts
unfolding indexed_from
length-indexed_from n [] = refl
length-indexed_from n (t ∷ ts) = ap suc (length-indexed_from (suc n) ts)

length-by_recency : (ts : List Todo) → length (by_recency ts) ≡ length ts
unfolding by_recency
length-by_recency ts =
    length-map (sort closed_le (indexed_from 0 ts)) (λ p. p.1)
    ∙ length-sort closed_le (indexed_from 0 ts)
    ∙ length-indexed_from 0 ts

length-visible_closed :
    (ts : List Todo) → length (visible_closed ts) ≡ min 10 (length (keep is_closed ts))
length-visible_closed ts = omega (
  arith,
  length-by_recency (keep is_closed ts),
  length-drop (length (by_recency (keep is_closed ts)) - 10) (by_recency (keep is_closed ts)),
)

-- The line on what is omitted.
length-omitted :
    (n m : ℕ) (line : List ℕ)
    → m ≡ min 10 n
    → length (if ltb 0 (n - m) then line ∷ [] else []) ≡ (if ltb 10 n then 1 else 0)
length-omitted n m line e = ground arith

-- A listing has a line for each open todo, at most ten for closed todos, and one more exactly when
-- it omits some.
pub length-list_lines :
    (ts : List Todo)
    → length (list_lines ts)
      ≡ length (keep (λ t. not (is_closed t)) ts)
        + min 10 (length (keep is_closed ts))
        + (if ltb 10 (length (keep is_closed ts)) then 1 else 0)
unfolding list_lines
length-list_lines ts =
    length-append (map format_todo active ++ map format_todo (visible_closed ts)) rest
    ∙ ap (λ n. n + length rest)
        (length-append (map format_todo active) (map format_todo (visible_closed ts)))
    ∙ sum_eq (length-map active format_todo)
        (length-map (visible_closed ts) format_todo ∙ length-visible_closed ts)
        (length-omitted (length (keep is_closed ts)) (length (visible_closed ts)) (omitted_line ts)
          (length-visible_closed ts))
  where
    active : List Todo
    active = keep (λ t. not (is_closed t)) ts

    rest : List (List ℕ)
    rest = if ltb 0 (omitted_closed ts) then omitted_line ts ∷ [] else []

    sum_eq : {a b c x y z : ℕ} → a ≡ x → b ≡ y → c ≡ z → a + b + c ≡ x + y + z
    sum_eq p q r = omega arith

-- One todo was closed no later than another, as far as is known.
abbrev pub NoLater : Todo → Todo → Type 0
NoLater t u = time_le t.status_changed_at u.status_changed_at ≡ true

-- Each todo was closed no later than those behind it.
abbrev pub Chronological : List Todo → Type 0
Chronological [] = Unit
Chronological (t ∷ ts) = All (NoLater t) ts × Chronological ts
