-- ===== src/Backlog/Canonical.antt =====
-- What a decoded snapshot of pi/extensions/shared/canonical-backlog.ts keeps.
use metagenda.Base.{
  ◌≤◌, ◌≡◌, ◌≢◌, sym, some, List, [], ◌∷◌, Bool, true, false, not, leb, length, All, arith,
}
use metagenda.Base.Text.{Text, text_eq, text_eq_iff}
use metagenda.Base.Search.{starts_with}
use metagenda.Base.Value.{
  Value, get_field, items, as_record, as_items, as_text, as_count, max_safe_integer,
}
use metagenda.Base.Partial.{Holds, present, Holds-bind, Holds-require, Holds-some}
use metagenda.Backlog.Requirements.{safe_requirement}
use metagenda.Backlog.Snapshot.{
  Item, Snapshot, is_identifier, as_source, as_status, as_priority, as_coverage, as_requirement,
  as_requirements, as_reason, id_prefix, canonical_backlog_item, has, canonical_backlog_items,
  canonical_project, decode_canonical_backlog_snapshot,
}

-- A well-formed item of a scope.
pub record IsCanonical (scope_id : Text) (i : Item) : Type 0 where
  pub scoped : starts_with (id_prefix scope_id i.canonical_id) i.source_id ≡ true
  pub identified : is_identifier i.canonical_id ≡ true
  pub safe : All (λ s. safe_requirement s ≡ true) i.requirements

abbrev pub Differs : Item → Item → Type 0
Differs i j = (i.source_id ≢ j.source_id) × (i.canonical_id ≢ j.canonical_id)

-- No two items have a source ID or a canonical ID in common.
abbrev pub Apart : List Item → Type 0
Apart [] = Unit {0}
Apart (i ∷ is) = All (Differs i) is × Apart is

-- An item whose IDs are in neither set.
abbrev IsNew : List Text → List Text → Item → Type 0
IsNew ss cs i = (has i.source_id ss ≡ false) × (has i.canonical_id cs ≡ false)

abbrev Safe : Text → Type 0
Safe s = safe_requirement s ≡ true

as_requirement-Safe : (v : Value) → Holds Safe (as_requirement v)
as_requirement-Safe v =
    Holds-bind {m = as_text v} (λ s e. Holds-require {b = safe_requirement s} (λ h. present h))

as_requirements-Safe : (vs : List Value) → Holds (All Safe) (as_requirements vs)
unfolding as_requirements
as_requirements-Safe [] = present tt
as_requirements-Safe (v ∷ vs) = Holds-bind {m = as_requirement v} (λ s e.
    Holds-bind {m = as_requirements vs} (λ rest f.
      present (Holds-some (as_requirement-Safe v) e, Holds-some (as_requirements-Safe vs) f)))

canonical_backlog_item-IsCanonical :
    (scope_id : Text) (v : Value) → Holds (IsCanonical scope_id) (canonical_backlog_item scope_id v)
unfolding canonical_backlog_item
canonical_backlog_item-IsCanonical scope_id v = Holds-bind {m = as_record v} (λ fs _.
    Holds-bind {m = as_text (get_field "canonicalId" fs)} (λ canonical_id _.
      Holds-bind {m = as_text (get_field "sourceId" fs)} (λ source_id _.
        Holds-require {b = is_identifier canonical_id} (λ identified.
          Holds-require {b = is_identifier source_id} (λ _.
            Holds-require {b = starts_with (id_prefix scope_id canonical_id) source_id} (λ scoped.
              Holds-bind {m = as_items (get_field "requirements" fs)} (λ vs _.
                Holds-require {b = leb 1 (length (items vs))} (λ _.
                  Holds-require {b = leb (length (items vs)) 32} (λ _.
                    Holds-bind {m = as_requirements (items vs)} (λ requirements r.
                      Holds-bind {m = as_status (get_field "status" fs)} (λ status _.
                        Holds-bind {m = as_priority (get_field "priority" fs)} (λ priority _.
                          Holds-bind {m = as_reason status (get_field "reason" fs)} (λ reason _.
                            present (record {
                              scoped = scoped;
                              identified = identified;
                              safe = Holds-some (as_requirements-Safe (items vs)) r;
                            }))))))))))))))

-- Items that are new to the sets with one item's IDs are new without it, and differ from it.
news-split :
    (i : Item) (ss cs : List Text) (is : List Item)
    → All (IsNew (i.source_id ∷ ss) (i.canonical_id ∷ cs)) is
    → All (IsNew ss cs) is × All (Differs i) is
news-split i ss cs [] h = (tt, tt)
news-split i ss cs (j ∷ is) ((a, b), h) =
    let (news, differ) = news-split i ss cs is h in
    let a1 : text_eq j.source_id i.source_id ≡ false = ground arith in
    let b1 : text_eq j.canonical_id i.canonical_id ≡ false = ground arith in
    (
      ((ground arith, ground arith), news),
      (
        (
          λ e. let t = (text_eq_iff j.source_id i.source_id).1 (sym e) in absurd (cc),
          λ e. let t = (text_eq_iff j.canonical_id i.canonical_id).1 (sym e) in absurd (cc),
        ),
        differ,
      ),
    )

-- What the loop finds.
record IsFound (scope_id : Text) (ss cs : List Text) (is : List Item) : Type 0 where
  canonical : All (IsCanonical scope_id) is
  news : All (IsNew ss cs) is
  apart : Apart is

canonical_backlog_items-IsFound :
    (scope_id : Text) (ss cs : List Text) (vs : List Value)
    → Holds (IsFound scope_id ss cs) (canonical_backlog_items scope_id ss cs vs)
unfolding canonical_backlog_items
canonical_backlog_items-IsFound scope_id ss cs [] =
    present (record { canonical = tt; news = tt; apart = tt })
canonical_backlog_items-IsFound scope_id ss cs (v ∷ vs) =
    Holds-bind {m = canonical_backlog_item scope_id v} (λ i e.
      Holds-require {b = not (has i.source_id ss)} (λ new_source.
        Holds-require {b = not (has i.canonical_id cs)} (λ new_id.
          Holds-bind
            {m = canonical_backlog_items scope_id (i.source_id ∷ ss) (i.canonical_id ∷ cs) vs}
            (λ rest f.
              let found =
                Holds-some
                  (canonical_backlog_items-IsFound scope_id (i.source_id ∷ ss) (i.canonical_id ∷ cs)
                    vs)
                  f in
              let (news, differ) = news-split i ss cs rest found.news in
              present (record {
                canonical =
                    (Holds-some (canonical_backlog_item-IsCanonical scope_id v) e, found.canonical);
                news = ((ground arith, ground arith), news);
                apart = (differ, found.apart);
              })))))

module _ (is_absolute : Text → Bool) (normalize : Text → Text) where
  -- A snapshot that the decoder accepts.
  pub record IsSnapshot (s : Snapshot) : Type 0 where
    pub placed : canonical_project is_absolute normalize s.project ≡ true
    pub scoped : is_identifier s.scope_id ≡ true
    pub safe : s.observed_at ≤ max_safe_integer
    pub canonical : All (IsCanonical s.scope_id) s.items
    pub apart : Apart s.items

  decode-Holds :
      (v : Value) → Holds IsSnapshot (decode_canonical_backlog_snapshot is_absolute normalize v)
  unfolding decode_canonical_backlog_snapshot
  decode-Holds v = Holds-bind {m = as_record v} (λ fs _.
      Holds-bind {m = as_text (get_field "project" fs)} (λ project _.
        Holds-require {b = canonical_project is_absolute normalize project} (λ placed.
          Holds-bind {m = as_source (get_field "source" fs)} (λ source _.
            Holds-bind {m = as_text (get_field "scopeId" fs)} (λ scope_id _.
              Holds-require {b = is_identifier scope_id} (λ scoped.
                Holds-bind {m = as_coverage (get_field "coverage" fs)} (λ coverage _.
                  Holds-bind {m = as_count (get_field "observedAt" fs)} (λ observed_at _.
                    Holds-require {b = leb observed_at max_safe_integer} (λ safe.
                      Holds-bind {m = as_items (get_field "items" fs)} (λ vs _.
                        Holds-require {b = leb (length (items vs)) 5000} (λ _.
                          Holds-bind {m = canonical_backlog_items scope_id [] [] (items vs)}
                            (λ decoded e.
                              let found =
                                Holds-some
                                  (canonical_backlog_items-IsFound scope_id [] [] (items vs)) e in
                              present (record {
                                placed = placed;
                                scoped = scoped;
                                safe = ground arith;
                                canonical = found.canonical;
                                apart = found.apart;
                              })))))))))))))

  -- Whatever a value holds, a snapshot that is decoded from it has a canonical project and a safe
  -- scope and time, its items belong to its scope and have safe requirements, and no two of them share
  -- a source ID or a canonical ID.
  pub decode-IsSnapshot :
      (v : Value) (s : Snapshot)
      → decode_canonical_backlog_snapshot is_absolute normalize v ≡ some s
      → IsSnapshot s
  decode-IsSnapshot v s e = Holds-some (decode-Holds v) e
