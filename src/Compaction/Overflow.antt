-- ===== src/Compaction/Overflow.antt =====
-- What a compaction that an overflow forces is made of: `overflowRecoveryFirstKeptEntryId`,
-- `latestBoundedUserRequest` and `overflowFallbackSummary` of pi/extensions/safe-compaction/state.ts.
use mathlib.Core.List.{reverse}
use metagenda.Base.{ℕ, Option, none, some, List, [], ◌∷◌, ◌++◌, ◌||◌, if◌then◌else◌, take_last}
use metagenda.Base.Bounded.{bounded_text}
use metagenda.Base.Search.{before_heading, includes}
use metagenda.Base.Text.{Text, lit, trim, is_empty, join}
use metagenda.Base.Value.{
  Value, str, obj, arr, items, get_field, ◌>>=◌, ◌>>◌, require, as_record, as_text, has_tag,
}
use metagenda.Compaction.Decode.{is_compaction}

-- The `id` of a message whose answer ended in an error.
unfoldable pub failed_message_id : Value → Option Text
failed_message_id v = do
  entry ← as_record v
  require (has_tag "message" (get_field "type" entry))
  id ← as_text (get_field "id" entry)
  message ← as_record (get_field "message" entry)
  require (has_tag "assistant" (get_field "role" message))
  require (has_tag "error" (get_field "stopReason" message))
  some id

unfoldable pub first_kept_from : List Value → Text → Text
unfolding failed_message_id
first_kept_from [] default_id = default_id
first_kept_from (entry ∷ older) default_id =
    let next = first_kept_from older default_id in
    if is_compaction entry
    then default_id
    else elim (failed_message_id entry) [ none ↦ next | some id ↦ id ]

unfoldable pub overflow_recovery_first_kept_entry_id : List Value → Text → Text
unfolding first_kept_from
overflow_recovery_first_kept_entry_id branch_entries default_id =
    first_kept_from (reverse branch_entries) default_id

abbrev pub text_part : Value → Option Text
text_part (obj part) =
    if has_tag "text" (get_field "type" part)
    then elim (as_text (get_field "text" part)) [ none ↦ some [] | some t ↦ some t ]
    else none
text_part _ = none

abbrev pub text_parts : List Value → List Text
text_parts [] = []
text_parts (v ∷ vs) = elim (text_part v) [ none ↦ text_parts vs | some t ↦ t ∷ text_parts vs ]

abbrev pub raw_content : Value → Text
raw_content (str s) = s
raw_content (arr vs) = join (10 ∷ []) (text_parts (items vs))
raw_content _ = []

abbrev pub max_latest_user_request : ℕ
max_latest_user_request = 8000

-- The content of a message of the user.
unfoldable pub user_content : Value → Option Text
user_content v = do
  entry ← as_record v
  require (has_tag "message" (get_field "type" entry))
  message ← as_record (get_field "message" entry)
  require (has_tag "user" (get_field "role" message))
  some (raw_content (get_field "content" message))

-- `text || undefined`
abbrev pub non_empty : Text → Option Text
non_empty [] = none
non_empty (c ∷ cs) = some (c ∷ cs)

unfoldable pub latest_request_from : List Value → Option Text
unfolding user_content bounded_text
latest_request_from [] = none
latest_request_from (entry ∷ older) = elim (user_content entry) [
  | none ↦ latest_request_from older
  | some raw ↦ non_empty (bounded_text max_latest_user_request raw)
]

unfoldable pub latest_bounded_user_request : List Value → Option Text
unfolding latest_request_from
latest_bounded_user_request branch_entries = latest_request_from (reverse branch_entries)

unfoldable pub previous_checkpoint_heading : Text
previous_checkpoint_heading = lit "\n### Previous checkpoint (bounded tail)"

abbrev pub bounded_root : Text → Option Text
bounded_root root =
    if is_empty root || includes (lit "**Model-free overflow recovery**") root
    then none
    else some (take_last 32000 root)

unfoldable pub root_checkpoint : Option Text → Option Text
root_checkpoint none = none
root_checkpoint (some summary) =
    bounded_root (trim (before_heading previous_checkpoint_heading summary))

abbrev pub request_lines : Option Text → List Text
request_lines none = []
request_lines (some []) = []
request_lines (some (c ∷ cs)) = (lit "- Latest user request before overflow: " ++ c ∷ cs) ∷ []

abbrev pub prior_lines : Option Text → List Text
prior_lines none = []
prior_lines (some prior) = [] ∷ lit "### Previous checkpoint (bounded tail)" ∷ prior ∷ []

unfoldable pub fixed_lines : List Text
fixed_lines =
    lit "## Goal"
    ∷ lit
        "Resume the durable active goal and branch-aware todos restored by the loaded Pi extensions."
    ∷ []
    ∷ lit "## Constraints & Preferences"
    ∷ lit
        "- Context overflow forced a model-free fallback checkpoint; do not claim omitted history as new evidence."
    ∷ lit "- A displayed tool call without a successful tool result remains unfinished."
    ∷ []
    ∷ lit "## Progress"
    ∷ lit "### Done"
    ∷ lit "- [x] Preserved persisted goal, todo, registry, loop, and safe-compaction state."
    ∷ []
    ∷ lit "### In Progress"
    ∷ lit
        "- [ ] Reconcile the retained recent messages with durable goal and todo state, then continue the exact active task."
    ∷ []
    ∷ lit "### Blocked"
    ∷ lit "- The normal LLM summarization request exceeded the model context window."
    ∷ []
    ∷ lit "## Key Decisions"
    ∷ lit
        "- **Model-free overflow recovery**: Prefer a bounded deterministic checkpoint over an infinite compact-and-retry loop."
    ∷ []
    ∷ lit "## Next Steps"
    ∷ lit "1. Inspect the retained recent tool results and durable todos."
    ∷ lit "2. Resume the exact unfinished action named in the notes below."
    ∷ lit "3. Do not rerun successful mutations whose output was merely filtered."
    ∷ []
    ∷ lit "## Critical Context"
    ∷ []

unfoldable pub overflow_fallback_summary : Option Text → Text → Option Text → Text
overflow_fallback_summary previous_summary resume_notes latest_user_request = join (10 ∷ []) (
    fixed_lines
    ++ (lit "- Resume notes: " ++ resume_notes) ∷ request_lines latest_user_request
    ++ prior_lines (root_checkpoint previous_summary))
