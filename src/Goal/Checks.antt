-- ===== src/Goal/Checks.antt =====
-- A goal over its evaluations, one after the other (`applyGoalEvaluation` of
-- pi/extensions/classified-workflows/goal.ts, as index.ts calls it while the goal is active).
use metagenda.Base.{
  ℕ, ◌+◌, ◌≡◌, ◌↔◌, refl, sym, ap, subst, ◌∙◌, ◌⊎◌, inl, inr, Option, List, [], ◌∷◌, ◌++◌, true,
  false, length, All, arith,
}
use metagenda.Base.Int.{ℤ, pos, negsuc, pos_part}
use metagenda.Base.Text.{Text}
use metagenda.Goal.Types.{
  GoalFields, EndStatus, achieved, GoalState, active, ended, GoalEvaluation, valid, invalid,
}
use metagenda.Goal.Evaluation.{judge, counted, apply_goal_evaluation}

-- One evaluation: the evaluator's answer, the tokens of the turn, the time and the open tasks.
pub record Check : Type 0 where
  pub evaluation : GoalEvaluation
  pub usage : ℤ
  pub now : ℕ
  pub tasks : List Text

-- A goal after its evaluations. One that has ended is evaluated no more.
unfoldable pub checked : GoalState → List Check → GoalState
checked state [] = state
checked (ended status s at reason) (c ∷ cs) = ended status s at reason
checked (active s reason) (c ∷ cs) =
    checked (apply_goal_evaluation s c.evaluation c.usage c.now c.tasks) cs

-- A check that leaves nothing to do: no task is open, and the goal is met, for a reason.
abbrev pub Met : Text → Check → Type 0
Met r c = (c.tasks ≡ []) × (c.evaluation ≡ valid true r)

-- A check that has open tasks, or that does not find the goal met.
abbrev pub Unmet : Check → Type 0
Unmet c = (r : Text) → Met r c → ⊥

-- A negative use of tokens counts as none.
abbrev pub used : ℤ → ℕ
used (pos n) = n
used (negsuc n) = 0

abbrev pub total_used : List Check → ℕ
total_used [] = 0
total_used (c ∷ cs) = used c.usage + total_used cs

-- A goal's fields after some more checks: the checks are counted as turns, and their tokens summed.
pub record Counts (s f : GoalFields) (cs : List Check) : Type 0 where
  pub same_condition : f.condition ≡ s.condition
  pub same_start : f.started_at ≡ s.started_at
  pub turns : f.turns ≡ s.turns + length cs
  pub tokens : f.tokens ≡ s.tokens + total_used cs

-- The fields determine a goal.
fields_eq :
    (f g : GoalFields)
    → f.condition ≡ g.condition
    → f.started_at ≡ g.started_at
    → f.turns ≡ g.turns
    → f.tokens ≡ g.tokens
    → f ≡ g
fields_eq f g a b c d = λ i. record { condition = a i; started_at = b i; turns = c i; tokens = d i }

-- How the checks end a goal: the first that is met does.
pub record Ends (s f : GoalFields) (cs : List Check) (st : EndStatus) (at : ℕ) (r : Text)
    : Type 0 where
  pub before : List Check
  pub last : Check
  pub after : List Check
  pub split : cs ≡ before ++ last ∷ after
  pub unmet : All Unmet before
  pub met : Met r last
  pub achieves : st ≡ achieved
  pub on_time : at ≡ last.now
  pub counts : Counts s f (before ++ last ∷ [])

abbrev step : GoalFields → Check → GoalState
step s c = apply_goal_evaluation s c.evaluation c.usage c.now c.tasks

check_cases : (c : Check) → ((r : Text) × Met r c) ⊎ Unmet c
check_cases c = split c.tasks c.evaluation refl refl
  where
    split :
        (ts : List Text) (e : GoalEvaluation)
        → c.tasks ≡ ts
        → c.evaluation ≡ e
        → ((r : Text) × Met r c) ⊎ Unmet c
    split [] (valid true r) p q = inl (r, (p, q))
    split [] (valid false r) p q = inr (λ x (a, b). absurd (cc))
    split [] (invalid r) p q = inr (λ x (a, b). absurd (cc))
    split (t ∷ ts) e p q = inr (λ x (a, b). absurd (cc))

apply-Unmet :
    (s : GoalFields) (e : GoalEvaluation) (u : ℤ) (now : ℕ) (ts : List Text)
    → ((r : Text) → (ts ≡ []) × (e ≡ valid true r) → ⊥)
    → (why : Option Text) × (apply_goal_evaluation s e u now ts ≡ active (counted s u) why)
unfolding apply_goal_evaluation judge
apply-Unmet s (invalid r) u now [] h = (_, refl)
apply-Unmet s (valid false r) u now [] h = (_, refl)
apply-Unmet s (valid true r) u now [] h = absurd (h r (refl, refl))
apply-Unmet s e u now (t ∷ ts) h = (_, refl)

apply-Met :
    (s : GoalFields) (c : Check) (r : Text)
    → Met r c
    → step s c ≡ ended achieved (counted s c.usage) c.now r
unfolding apply_goal_evaluation judge
apply-Met s c r (p, q) = rw (p, q) refl

checked-ended :
    (st : EndStatus) (s : GoalFields) (at : ℕ) (r : Text) (cs : List Check)
    → checked (ended st s at r) cs ≡ ended st s at r
unfolding checked
checked-ended st s at r [] = refl
checked-ended st s at r (c ∷ cs) = refl

pos_part-used : (u : ℤ) → pos_part u ≡ used u
pos_part-used (pos n) = refl
pos_part-used (negsuc n) = refl

Counts-counted :
    (s f : GoalFields) (c : Check) (cs : List Check)
    → Counts (counted s c.usage) f cs
    → Counts s f (c ∷ cs)
Counts-counted s f c cs k = record {
  same_condition = k.same_condition;
  same_start = k.same_start;
  turns = omega (arith, k.turns);
  tokens = omega (arith, k.tokens, pos_part-used c.usage);
}

Counts-none : (s : GoalFields) → Counts s s []
Counts-none s = record {
  same_condition = refl;
  same_start = refl;
  turns = omega arith;
  tokens = omega arith;
}

Counts-unique : (s f g : GoalFields) (cs : List Check) → Counts s f cs → Counts s g cs → f ≡ g
Counts-unique s f g cs a b =
    fields_eq f g (a.same_condition ∙ sym b.same_condition) (a.same_start ∙ sym b.same_start)
      (a.turns ∙ sym b.turns) (a.tokens ∙ sym b.tokens)

checked-Ends :
    (s f : GoalFields) (why : Option Text) (cs : List Check) (st : EndStatus) (at : ℕ) (r : Text)
    → checked (active s why) cs ≡ ended st f at r
    → Ends s f cs st at r
unfolding checked
checked-Ends s f why [] st at r h = absurd (cc)
checked-Ends s f why (c ∷ cs) st at r h = elim (check_cases c) [
  | inl (x, m) ↦
      let same : ended achieved (counted s c.usage) c.now x ≡ ended st f at r =
        sym (checked-ended achieved (counted s c.usage) c.now x cs)
        ∙ ap (λ z. checked z cs) (sym (apply-Met s c x m))
        ∙ h in
      let reason : x ≡ r = cc in
      let fields : counted s c.usage ≡ f = cc in
      record {
        before = [];
        last = c;
        after = cs;
        split = refl;
        unmet = tt;
        met = subst (λ y. Met y c) reason m;
        achieves = cc;
        on_time = cc;
        counts =
            subst (λ g. Counts s g (c ∷ [])) fields
              (Counts-counted s (counted s c.usage) c [] (Counts-none (counted s c.usage)));
      }
  | inr n ↦
      let (reason, e) = apply-Unmet s c.evaluation c.usage c.now c.tasks n in
      let rest =
        checked-Ends (counted s c.usage) f reason cs st at r (ap (λ z. checked z cs) (sym e) ∙ h) in
      record {
        before = c ∷ rest.before;
        last = rest.last;
        after = rest.after;
        split = ap (λ z. c ∷ z) rest.split;
        unmet = (n, rest.unmet);
        met = rest.met;
        achieves = rest.achieves;
        on_time = rest.on_time;
        counts = Counts-counted s f c (rest.before ++ rest.last ∷ []) rest.counts;
      }
]

checked-Met :
    (s : GoalFields) (why : Option Text) (before after : List Check) (c : Check) (r : Text)
    → All Unmet before
    → Met r c
    → (g : GoalFields) × (checked (active s why) (before ++ c ∷ after) ≡ ended achieved g c.now r)
      × Counts s g (before ++ c ∷ [])
unfolding checked
checked-Met s why [] after c r n m = (
  counted s c.usage,
  ap (λ z. checked z after) (apply-Met s c r m)
      ∙ checked-ended achieved (counted s c.usage) c.now r after,
  Counts-counted s (counted s c.usage) c [] (Counts-none (counted s c.usage)),
)
checked-Met s why (b ∷ before) after c r (n, ns) m =
    let (reason, e) = apply-Unmet s b.evaluation b.usage b.now b.tasks n in
    let (g, run, k) = checked-Met (counted s b.usage) reason before after c r ns m in
    (
      g,
      ap (λ z. checked z (before ++ c ∷ after)) e ∙ run,
      Counts-counted s g b (before ++ c ∷ []) k,
    )

-- Over any sequence of evaluations, an active goal ends exactly at the first one that finds no open
-- task and the goal met, for its reason and at its time, and it is achieved. It then keeps its
-- condition and its start, has one more turn for every evaluation up to that one, and the tokens of
-- all of them added, where a negative use counts as none.
pub checked-eq-ended_iff :
    (s f : GoalFields) (why : Option Text) (cs : List Check) (st : EndStatus) (at : ℕ) (r : Text)
    → (checked (active s why) cs ≡ ended st f at r) ↔ Ends s f cs st at r
checked-eq-ended_iff s f why cs st at r = (
  checked-Ends s f why cs st at r,
  λ e.
      let (g, run, k) = checked-Met s why e.before e.after e.last r e.unmet e.met in
      let same : f ≡ g = Counts-unique s f g (e.before ++ e.last ∷ []) e.counts k in
      let achieves = e.achieves in
      let on_time = e.on_time in ap (checked (active s why)) e.split ∙ run ∙ cc,
)
