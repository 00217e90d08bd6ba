-- ===== src/Todo/Timestamp.antt =====
-- The form of a reminder's time in pi/extensions/todo/state.ts: `TIMEZONE_QUALIFIED_ISO`, against a
-- description of the texts that it accepts.
use mathlib.Core.List.{reverse, reverse-append, reverse-reverse, reverse-cons}
use metagenda.Base.{
  ℕ, ◌≤◌, ◌≡◌, ◌≢◌, ◌⊎◌, ◌↔◌, refl, ap, subst, ◌∙◌, inl, inr, [], ◌∷◌, ◌++◌, Bool, true, false,
  ◌&&◌, ◌||◌, ◌==◌, all, All, arith, Bool-cases,
}
use metagenda.Base.Text.{Text, is_empty}
use metagenda.Base.Reverse.{All-reverse}
use metagenda.Todo.Parse.{is_digit, is_dot, some_dots, zone_reversed, timezone_qualified_iso}

abbrev pub Digit : ℕ → Type 0
Digit c = (48 ≤ c) × (c ≤ 57)

-- No line terminator.
abbrev pub Plain : ℕ → Type 0
Plain c = (c ≢ 10) × (c ≢ 13) × (c ≢ 0x2028) × (c ≢ 0x2029)

-- `+hh:mm` or `-hh:mm`
pub record Offset (zone : Text) : Type 0 where
  pub sign : ℕ
  pub h1 : ℕ
  pub h2 : ℕ
  pub m1 : ℕ
  pub m2 : ℕ
  pub spelled : zone ≡ sign ∷ h1 ∷ h2 ∷ 58 ∷ m1 ∷ m2 ∷ []
  pub signed : (sign ≡ 43) ⊎ (sign ≡ 45)
  pub hours : Digit h1 × Digit h2
  pub minutes : Digit m1 × Digit m2

-- `Z` or an offset.
abbrev pub Zone : Text → Type 0
Zone zone = (zone ≡ 90 ∷ []) ⊎ Offset zone

-- What comes behind the `T`: something in one line, then a zone.
pub record Timed (rest : Text) : Type 0 where
  pub body : Text
  pub zone : Text
  pub split : rest ≡ body ++ zone
  pub filled : is_empty body ≡ false
  pub in_line : All Plain body
  pub zoned : Zone zone

is_digit_iff : (c : ℕ) → (is_digit c ≡ true) ↔ Digit c
unfolding is_digit
is_digit_iff c = ground arith

is_dot-Plain : (c : ℕ) → is_dot c ≡ true → Plain c
unfolding is_dot
is_dot-Plain c h = (ground arith, ground arith, ground arith, ground arith)

Plain-is_dot : (c : ℕ) → Plain c → is_dot c ≡ true
unfolding is_dot
Plain-is_dot c (a, b, d, e) = ground arith

all_dots_iff : (s : Text) → (all is_dot s ≡ true) ↔ All Plain s
all_dots_iff [] = (λ e. tt, λ h. refl)
all_dots_iff (c ∷ s) = (
  λ e. (is_dot-Plain c (ground arith), (all_dots_iff s).0 (ground arith)),
  λ (p, h). let q = Plain-is_dot c p in let r = (all_dots_iff s).1 h in rw q r,
)

some_dots_iff : (s : Text) → (some_dots s ≡ true) ↔ ((is_empty s ≡ false) × All Plain s)
some_dots_iff [] = (λ e. absurd (cc), λ (e, h). absurd (cc))
some_dots_iff (c ∷ s) =
    (λ e. (refl, (all_dots_iff (c ∷ s)).0 e), λ (e, h). (all_dots_iff (c ∷ s)).1 h)

not_empty-append : (s : Text) (c : ℕ) → is_empty (s ++ c ∷ []) ≡ false
not_empty-append [] c = refl
not_empty-append (d ∷ s) c = refl

not_empty-reverse : (s : Text) → is_empty s ≡ false → is_empty (reverse s) ≡ false
not_empty-reverse [] h = absurd (cc)
not_empty-reverse (c ∷ s) h = ap is_empty (reverse-cons c s) ∙ not_empty-append (reverse s) c

or_left : (a b : Bool) → a ≡ true → (a || b) ≡ true
or_left true b h = refl
or_left false b h = absurd (cc)

-- A reversed text with a `Z` in front.
zone_Z : (s : Text) → some_dots s ≡ true → zone_reversed (90 ∷ s) ≡ true
unfolding zone_reversed
zone_Z [] h = absurd (cc)
zone_Z (a ∷ []) h = h
zone_Z (a ∷ b ∷ []) h = h
zone_Z (a ∷ b ∷ c ∷ []) h = h
zone_Z (a ∷ b ∷ c ∷ d ∷ []) h = h
zone_Z (a ∷ b ∷ c ∷ d ∷ e ∷ s) h = or_left (some_dots (a ∷ b ∷ c ∷ d ∷ e ∷ s)) _ h

zone_offset :
    (sign h1 h2 m1 m2 : ℕ) (s : Text)
    → (sign ≡ 43) ⊎ (sign ≡ 45)
    → Digit h1 × Digit h2
    → Digit m1 × Digit m2
    → some_dots s ≡ true
    → zone_reversed (m2 ∷ m1 ∷ 58 ∷ h2 ∷ h1 ∷ sign ∷ s) ≡ true
unfolding zone_reversed
zone_offset sign h1 h2 m1 m2 s g (a, b) (c, d) h =
    let a1 = (is_digit_iff h1).1 a in
    let b1 = (is_digit_iff h2).1 b in
    let c1 = (is_digit_iff m1).1 c in let d1 = (is_digit_iff m2).1 d in ground arith

Timed-zone_reversed : (rest : Text) → Timed rest → zone_reversed (reverse rest) ≡ true
Timed-zone_reversed rest t =
    let dots : some_dots (reverse t.body) ≡ true =
      (some_dots_iff (reverse t.body)).1
        (not_empty-reverse t.body t.filled, All-reverse Plain t.body t.in_line) in
    let turned : reverse rest ≡ reverse t.zone ++ reverse t.body =
      ap reverse t.split ∙ reverse-append t.body t.zone in
    ap zone_reversed turned ∙ elim t.zoned [
      | inl z ↦
          ap (λ y. zone_reversed (reverse y ++ reverse t.body)) z ∙ zone_Z (reverse t.body) dots
      | inr o ↦
          ap (λ y. zone_reversed (reverse y ++ reverse t.body)) o.spelled
          ∙ zone_offset o.sign o.h1 o.h2 o.m1 o.m2 (reverse t.body) o.signed o.hours o.minutes dots
    ]

Z-Timed : (z : ℕ) (s : Text) → (z == 90 && some_dots s) ≡ true → Timed (reverse (z ∷ s))
Z-Timed z s h =
    let (filled, plain) = (some_dots_iff s).0 (ground arith) in
    let is_z : z ≡ 90 = ground arith in
    record {
      body = reverse s;
      zone = 90 ∷ [];
      split = reverse-cons z s ∙ ap (λ y. reverse s ++ y ∷ []) is_z;
      filled = not_empty-reverse s filled;
      in_line = All-reverse Plain s plain;
      zoned = inl refl;
    }

offset-Timed :
    (sign h1 h2 colon m1 m2 : ℕ) (s : Text)
    → (is_digit m2
        && is_digit m1
        && colon == 58
        && is_digit h2
        && is_digit h1
        && (sign == 43 || sign == 45)
        && some_dots s)
      ≡ true
    → Timed (reverse (m2 ∷ m1 ∷ colon ∷ h2 ∷ h1 ∷ sign ∷ s))
offset-Timed sign h1 h2 colon m1 m2 s h =
    let (filled, plain) = (some_dots_iff s).0 (ground arith) in
    let is_colon : colon ≡ 58 = ground arith in
    record {
      body = reverse s;
      zone = sign ∷ h1 ∷ h2 ∷ 58 ∷ m1 ∷ m2 ∷ [];
      split =
          reverse-append (m2 ∷ m1 ∷ colon ∷ h2 ∷ h1 ∷ sign ∷ []) s
          ∙ ap (λ y. reverse s ++ sign ∷ h1 ∷ h2 ∷ y ∷ m1 ∷ m2 ∷ []) is_colon;
      filled = not_empty-reverse s filled;
      in_line = All-reverse Plain s plain;
      zoned = inr (record {
        sign = sign;
        h1 = h1;
        h2 = h2;
        m1 = m1;
        m2 = m2;
        spelled = refl;
        signed = ground arith;
        hours = ((is_digit_iff h1).0 (ground arith), (is_digit_iff h2).0 (ground arith));
        minutes = ((is_digit_iff m1).0 (ground arith), (is_digit_iff m2).0 (ground arith));
      });
    }

zone_reversed-Timed : (r : Text) → zone_reversed r ≡ true → Timed (reverse r)
unfolding zone_reversed
zone_reversed-Timed [] h = absurd (cc)
zone_reversed-Timed (z ∷ []) h = Z-Timed z [] h
zone_reversed-Timed (z ∷ a ∷ []) h = Z-Timed z (a ∷ []) h
zone_reversed-Timed (z ∷ a ∷ b ∷ []) h = Z-Timed z (a ∷ b ∷ []) h
zone_reversed-Timed (z ∷ a ∷ b ∷ c ∷ []) h = Z-Timed z (a ∷ b ∷ c ∷ []) h
zone_reversed-Timed (z ∷ a ∷ b ∷ c ∷ d ∷ []) h = Z-Timed z (a ∷ b ∷ c ∷ d ∷ []) h
zone_reversed-Timed (z ∷ a ∷ b ∷ c ∷ d ∷ e ∷ s) h =
    elim (Bool-cases (z == 90 && some_dots (a ∷ b ∷ c ∷ d ∷ e ∷ s))) [
      | inl q ↦ Z-Timed z (a ∷ b ∷ c ∷ d ∷ e ∷ s) q
      | inr q ↦ offset-Timed e d c b a z s (rw q at h)
    ]

-- `yyyy-mm-ddT`, something in one line, and a zone.
pub record Qualified (s : Text) : Type 0 where
  pub y1 : ℕ
  pub y2 : ℕ
  pub y3 : ℕ
  pub y4 : ℕ
  pub m1 : ℕ
  pub m2 : ℕ
  pub d1 : ℕ
  pub d2 : ℕ
  pub rest : Text
  pub spelled : s ≡ y1 ∷ y2 ∷ y3 ∷ y4 ∷ 45 ∷ m1 ∷ m2 ∷ 45 ∷ d1 ∷ d2 ∷ 84 ∷ rest
  pub digits : All Digit (y1 ∷ y2 ∷ y3 ∷ y4 ∷ m1 ∷ m2 ∷ d1 ∷ d2 ∷ [])
  pub timed : Timed rest

all_digits_iff : (s : Text) → (all is_digit s ≡ true) ↔ All Digit s
all_digits_iff [] = (λ e. tt, λ h. refl)
all_digits_iff (c ∷ s) = (
  λ e. ((is_digit_iff c).0 (ground arith), (all_digits_iff s).0 (ground arith)),
  λ (p, h). let q = (is_digit_iff c).1 p in let r = (all_digits_iff s).1 h in rw q r,
)

iso-Qualified : (s : Text) → timezone_qualified_iso s ≡ true → Qualified s
unfolding timezone_qualified_iso
iso-Qualified (y1 ∷ y2 ∷ y3 ∷ y4 ∷ s1 ∷ m1 ∷ m2 ∷ s2 ∷ d1 ∷ d2 ∷ t ∷ rest) h =
    let ds = y1 ∷ y2 ∷ y3 ∷ y4 ∷ m1 ∷ m2 ∷ d1 ∷ d2 ∷ [] in
    let digits : all is_digit ds ≡ true = ground arith in
    let first : s1 ≡ 45 = ground arith in
    let second : s2 ≡ 45 = ground arith in
    let time : t ≡ 84 = ground arith in
    let zone : zone_reversed (reverse rest) ≡ true = ground arith in
    record {
      y1 = y1;
      y2 = y2;
      y3 = y3;
      y4 = y4;
      m1 = m1;
      m2 = m2;
      d1 = d1;
      d2 = d2;
      rest = rest;
      spelled = cc;
      digits = (all_digits_iff ds).0 digits;
      timed = subst Timed (reverse-reverse rest) (zone_reversed-Timed (reverse rest) zone);
    }
iso-Qualified _ h = absurd (cc)

Qualified-iso : (s : Text) → Qualified s → timezone_qualified_iso s ≡ true
unfolding timezone_qualified_iso
Qualified-iso s q =
    let digits =
      (all_digits_iff (q.y1 ∷ q.y2 ∷ q.y3 ∷ q.y4 ∷ q.m1 ∷ q.m2 ∷ q.d1 ∷ q.d2 ∷ [])).1 q.digits in
    let zone = Timed-zone_reversed q.rest q.timed in
    ap timezone_qualified_iso q.spelled ∙ ground arith

-- The pattern accepts exactly these texts.
pub timezone_qualified_iso_iff : (s : Text) → (timezone_qualified_iso s ≡ true) ↔ Qualified s
timezone_qualified_iso_iff s = (iso-Qualified s, Qualified-iso s)
