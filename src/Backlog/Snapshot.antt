-- ===== src/Backlog/Snapshot.antt =====
-- `decodeCanonicalBacklogSnapshot` of pi/extensions/shared/canonical-backlog.ts.
use metagenda.Base.{
  ℕ, ◌==◌, Option, none, some, List, [], ◌∷◌, ◌++◌, Bool, not, ◌&&◌, ◌||◌, leb, if◌then◌else◌,
  length, any, all,
}
use metagenda.Base.Text.{Text, lit, text_eq, is_empty}
use metagenda.Base.Search.{starts_with}
use metagenda.Base.Value.{
  Value, undefined, get_field, items, ◌>>=◌, ◌>>◌, require, as_record, as_items, as_text, as_count,
  has_tag, max_safe_integer,
}
use metagenda.Backlog.Requirements.{safe_requirement}

pub data Source : Type 0 where
  tracker_item backlog_document : Source

pub data Status : Type 0 where
  ready blocked completed cancelled : Status

pub data Priority : Type 0 where
  normal urgent : Priority

pub data Coverage : Type 0 where
  partial complete : Coverage

pub record Item : Type 0 where
  pub canonical_id : Text
  pub source_id : Text
  pub requirements : List Text
  pub status : Status
  pub priority : Priority
  pub reason : Option Text

pub record Snapshot : Type 0 where
  pub project : Text
  pub source : Source
  pub scope_id : Text
  pub coverage : Coverage
  pub observed_at : ℕ
  pub items : List Item

-- `[A-Za-z0-9._:/-]`
abbrev pub is_identifier_unit : ℕ → Bool
is_identifier_unit c =
    (leb 65 c && leb c 90) || (leb 97 c && leb c 122) || (leb 45 c && leb c 58) || c == 95

-- `SAFE_IDENTIFIER`
unfoldable pub is_identifier : Text → Bool
is_identifier s = not (is_empty s) && leb (length s) 256 && all is_identifier_unit s

abbrev pub as_source : Value → Option Source
as_source v =
    if has_tag "tracker-item" v
    then some tracker_item
    else if has_tag "backlog-document" v
    then some backlog_document
    else none

abbrev pub as_status : Value → Option Status
as_status v =
    if has_tag "ready" v
    then some ready
    else if has_tag "blocked" v
    then some blocked
    else if has_tag "completed" v
    then some completed
    else if has_tag "cancelled" v
    then some cancelled
    else none

abbrev pub as_priority : Value → Option Priority
as_priority v =
    if has_tag "normal" v then some normal else if has_tag "urgent" v then some urgent else none

abbrev pub as_coverage : Value → Option Coverage
as_coverage v =
    if has_tag "partial" v
    then some partial
    else if has_tag "complete" v
    then some complete
    else none

abbrev pub as_requirement : Value → Option Text
as_requirement v = as_text v >>= λ s. require (safe_requirement s) >> some s

-- `safeRequirements`
unfoldable pub as_requirements : List Value → Option (List Text)
as_requirements [] = some []
as_requirements (v ∷ vs) = as_requirement v >>= λ s. as_requirements vs >>= λ rest. some (s ∷ rest)

-- The reason of a blocked item; no other has one.
abbrev pub as_reason : Status → Value → Option (Option Text)
as_reason blocked v = as_requirement v >>= λ s. some (some s)
as_reason _ undefined = some none
as_reason _ _ = none

abbrev pub id_prefix : Text → Text → Text
id_prefix scope_id canonical_id = scope_id ++ lit ":" ++ canonical_id ++ lit ":"

-- `canonicalBacklogItem`, with the fields that `snapshotFields` takes.
unfoldable pub canonical_backlog_item : Text → Value → Option Item
canonical_backlog_item scope_id value = do
  fs ← as_record value
  canonical_id ← as_text (get_field "canonicalId" fs)
  source_id ← as_text (get_field "sourceId" fs)
  require (is_identifier canonical_id)
  require (is_identifier source_id)
  require (starts_with (id_prefix scope_id canonical_id) source_id)
  vs ← as_items (get_field "requirements" fs)
  require (leb 1 (length (items vs)))
  require (leb (length (items vs)) 32)
  requirements ← as_requirements (items vs)
  status ← as_status (get_field "status" fs)
  priority ← as_priority (get_field "priority" fs)
  reason ← as_reason status (get_field "reason" fs)
  some (record {
    canonical_id = canonical_id;
    source_id = source_id;
    requirements = requirements;
    status = status;
    priority = priority;
    reason = reason;
  })

abbrev pub has : Text → List Text → Bool
has s = any (text_eq s)

-- The loop of `canonicalBacklogItems`, with its two sets.
unfoldable pub canonical_backlog_items :
    Text → List Text → List Text → List Value → Option (List Item)
canonical_backlog_items scope_id source_ids canonical_ids [] = some []
canonical_backlog_items scope_id source_ids canonical_ids (v ∷ vs) =
    canonical_backlog_item scope_id v >>= λ item.
    require (not (has item.source_id source_ids))
    >> (require (not (has item.canonical_id canonical_ids))
        >> (canonical_backlog_items scope_id (item.source_id ∷ source_ids)
              (item.canonical_id ∷ canonical_ids) vs
            >>= λ rest. some (item ∷ rest)))

-- `is_absolute` and `normalize` are node:path's.
module _ (is_absolute : Text → Bool) (normalize : Text → Text) where
  abbrev pub drop_slash : Text → Text
  drop_slash [] = []
  drop_slash (c ∷ cs) = if c == 47 && is_empty cs then [] else c ∷ drop_slash cs

  abbrev pub or_root : Text → Text
  or_root [] = lit "/"
  or_root (c ∷ cs) = c ∷ cs

  unfoldable pub canonical_project : Text → Bool
  canonical_project s =
      not (any (λ c. c == 0) s) && is_absolute s && text_eq (or_root (drop_slash (normalize s))) s

  unfoldable pub decode_canonical_backlog_snapshot : Value → Option Snapshot
  decode_canonical_backlog_snapshot value = do
    fs ← as_record value
    project ← as_text (get_field "project" fs)
    require (canonical_project project)
    source ← as_source (get_field "source" fs)
    scope_id ← as_text (get_field "scopeId" fs)
    require (is_identifier scope_id)
    coverage ← as_coverage (get_field "coverage" fs)
    observed_at ← as_count (get_field "observedAt" fs)
    require (leb observed_at max_safe_integer)
    vs ← as_items (get_field "items" fs)
    require (leb (length (items vs)) 5000)
    decoded ← canonical_backlog_items scope_id [] [] (items vs)
    some (record {
      project = project;
      source = source;
      scope_id = scope_id;
      coverage = coverage;
      observed_at = observed_at;
      items = decoded;
    })
