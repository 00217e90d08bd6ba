-- ===== src/Loop/RoundTrip.antt =====
-- The stored form of a loop (pi/extensions/classified-workflows/loop.ts) read back.
use metagenda.Base.Value.{Value, obj, Fields}
use metagenda.Base.{ℕ, ◌≡◌, refl, inl, inr, some, arith, Option-cases}
use metagenda.Base.Int.{ℤ, pos, negsuc, ◌≤ℤ◌}
use metagenda.Base.Text.{lit, text_eq}
use metagenda.Loop.Types.{LoopFields, LoopState, active, cleared}
use metagenda.Loop.Store.{parse_shared, parse_status, parse_stored_loop, stored_loop}
use metagenda.Loop.Bounds.{IsStorable}

abbrev pub fields_of : LoopState → LoopFields
fields_of (active s) = s
fields_of (cleared s at) = s

parse_stored-active :
    (s : LoopFields) (n : ℕ)
    → IsStorable s
    → s.next_run_at ≡ pos n
    → parse_stored_loop (stored_loop (active s)) ≡ some (active s)
unfolding parse_stored_loop parse_shared parse_status text_eq lit
parse_stored-active s n v e = ground arith

parse_stored-cleared :
    (s : LoopFields) (at n : ℕ)
    → IsStorable s
    → s.next_run_at ≡ pos n
    → parse_stored_loop (stored_loop (cleared s at)) ≡ some (cleared s at)
unfolding parse_stored_loop parse_shared parse_status text_eq lit
parse_stored-cleared s at n v e = ground arith

after_epoch-pos : (z : ℤ) → pos 0 ≤ℤ z → (n : ℕ) × (z ≡ pos n)
after_epoch-pos (pos n) h = (n, refl)
after_epoch-pos (negsuc n) h = absurd (omega arith)

-- A storable loop, active or cleared, is read back from its stored form.
pub parse_stored_loop-stored_loop :
    (s : LoopState) → IsStorable (fields_of s) → parse_stored_loop (stored_loop s) ≡ some s
parse_stored_loop-stored_loop (active s) v =
    let (n, e) = after_epoch-pos s.next_run_at v.after_epoch in parse_stored-active s n v e
parse_stored_loop-stored_loop (cleared s at) v =
    let (n, e) = after_epoch-pos s.next_run_at v.after_epoch in parse_stored-cleared s at n v e

parse_shared-IsStorable : (fs : Fields) (s : LoopFields) → parse_shared fs ≡ some s → IsStorable s
unfolding parse_shared
parse_shared-IsStorable fs s h = ground arith

-- What is read is storable, whatever was stored.
pub parse_stored_loop-IsStorable :
    (v : Value) (s : LoopState) → parse_stored_loop v ≡ some s → IsStorable (fields_of s)
unfolding parse_stored_loop parse_status
parse_stored_loop-IsStorable (obj fs) s h = elim (Option-cases (parse_shared fs)) [
  | inl e ↦ absurd (ground arith)
  | inr (t, e) ↦
      let same : fields_of s ≡ t = ground arith in rw same (parse_shared-IsStorable fs t e)
]
parse_stored_loop-IsStorable _ s h = absurd (cc)
