-- ===== src/Backlog/Tests.antt =====
-- The canonical backlog at work: runs of the code, and the theorems at inputs that meet their
-- hypotheses.
use metagenda.Base.{false, any, length, arith, ◌≤◌, ◌≡◌, refl, some, none, [], ◌∷◌, Bool, true}
use metagenda.Base.Int.{pos}
use metagenda.Base.Text.{Text, lit, text_eq, trim, trim_start, trim_cons, trim_end, is_space}
use metagenda.Base.Value.{Value, int, str, arr, obj, field, end, nil, cons}
use metagenda.Backlog.Requirements.{
  is_unsafe, safe_requirement, piece_length, ends_high, cut_from, backlog_requirements_from_text,
}
use metagenda.Backlog.Snapshot.{
  Snapshot, tracker_item, ready, urgent, partial, is_identifier, as_requirements,
  canonical_backlog_item, canonical_backlog_items, canonical_project,
  decode_canonical_backlog_snapshot,
}
use metagenda.Backlog.Pieces.{AllSafe, backlog_requirements_from_text-AllSafe}
use metagenda.Backlog.Lossless.{solid, joined, backlog_requirements_from_text-solid}
use metagenda.Backlog.Canonical.{IsSnapshot, decode-IsSnapshot}

cut_run : backlog_requirements_from_text (lit "Fix it") 3 ≡ lit "Fix it" ∷ []
unfolding backlog_requirements_from_text cut_from is_unsafe piece_length ends_high trim trim_start
    trim_cons trim_end is_space lit
cut_run = refl

backlog_requirements_from_text-AllSafe_example :
    AllSafe (backlog_requirements_from_text (lit "Fix it") 3)
backlog_requirements_from_text-AllSafe_example =
    backlog_requirements_from_text-AllSafe (lit "Fix it") 3

clean : any is_unsafe (lit "Fix it") ≡ false
unfolding is_unsafe lit
clean = refl

short : length (lit "Fix it") ≤ 9
unfolding lit
short = omega arith

backlog_requirements_from_text-solid_example :
    solid (joined (backlog_requirements_from_text (lit "Fix it") 9)) ≡ solid (lit "Fix it")
backlog_requirements_from_text-solid_example =
    backlog_requirements_from_text-solid (lit "Fix it") 9 clean short (omega arith)

abbrev is_absolute : Text → Bool
is_absolute s = true

abbrev normalize : Text → Text
normalize s = s

abbrev stored : Value
stored = obj (
    field "project" (str (lit "/w")) (
      field "source" (str (lit "tracker-item")) (
        field "scopeId" (str (lit "s")) (
          field "coverage" (str (lit "partial")) (
            field "observedAt" (int (pos 7)) (
              field "items"
                (arr (
                  cons
                    (obj (
                      field "canonicalId" (str (lit "a")) (
                        field "sourceId" (str (lit "s:a:1")) (
                          field "requirements" (arr (cons (str (lit "Fix")) nil)) (
                            field "status" (str (lit "ready"))
                              (field "priority" (str (lit "urgent")) end))))))
                    nil))
                end))))))

abbrev snapshot : Snapshot
snapshot = record {
  project = lit "/w";
  source = tracker_item;
  scope_id = lit "s";
  coverage = partial;
  observed_at = 7;
  items =
      record {
        canonical_id = lit "a";
        source_id = lit "s:a:1";
        requirements = lit "Fix" ∷ [];
        status = ready;
        priority = urgent;
        reason = none;
      }
      ∷ [];
}

decode_run : decode_canonical_backlog_snapshot is_absolute normalize stored ≡ some snapshot
unfolding decode_canonical_backlog_snapshot canonical_project canonical_backlog_items
    canonical_backlog_item as_requirements is_identifier safe_requirement is_unsafe text_eq trim
    trim_start trim_cons trim_end is_space lit
decode_run = refl

decode-IsSnapshot_example : IsSnapshot is_absolute normalize snapshot
decode-IsSnapshot_example = decode-IsSnapshot is_absolute normalize stored snapshot decode_run
