-- ===== src/Rpc/Framing.antt =====
-- Frames are read back, and reading one does not depend on what follows it
-- (pi/extensions/lsp/json-rpc.ts).
use metagenda.Base.{
  ℕ, zero, suc, ◌+◌, ◌/◌, ◌%◌, ◌^◌, ◌<◌, ◌≤◌, ◌≡◌, refl, sym, ap, ◌∙◌, inl, inr, some, List, [],
  ◌∷◌, ◌++◌, true, false, ◌==◌, ltb, length, take, drop, All, length-append, length-drop, arith,
  Bool-cases, Option-cases,
}
use mathlib.Core.List.{append_assoc}
use metagenda.Base.Digits.{is_digit, digits, digits-decimal, decimal-All, decimal-front}
use metagenda.Base.Search.{starts_with}
use metagenda.Base.Text.{Text, lit, is_space, to_lower_unit, decimal, digits_from, trim_start}
use metagenda.Base.Value.{max_safe_integer}
use metagenda.Rpc.Types.{Bytes, max_header_bytes}
use metagenda.Rpc.Frame.{
  header_end, split_header, ascii, ends_line, length_value, length_at, length_from, content_length,
  framed, read_body, read_frame, frame,
}

take-length {ℓ} : {A : Type ℓ} (xs ys : List A) → take (length xs) (xs ++ ys) ≡ xs
take-length [] ys = refl
take-length (x ∷ xs) ys = ap (◌∷◌ x) (take-length xs ys)

drop-length {ℓ} : {A : Type ℓ} (xs ys : List A) → drop (length xs) (xs ++ ys) ≡ ys
drop-length [] ys = refl
drop-length (x ∷ xs) ys = drop-length xs ys

starts_with-append :
    (p b c : Bytes) → length p ≤ length b → starts_with p (b ++ c) ≡ starts_with p b
starts_with-append [] b c h = refl
starts_with-append (x ∷ p) [] c h = absurd (omega arith)
starts_with-append (x ∷ p) (y ∷ b) c h = ground (arith, starts_with-append p b c)

starts_with-length : (p b : Bytes) → starts_with p b ≡ true → length p ≤ length b
starts_with-length [] b h = omega arith
starts_with-length (x ∷ p) [] h = absurd (cc)
starts_with-length (x ∷ p) (y ∷ b) h = ground (arith, starts_with-length p b)

-- The bytes of the header, its end and the rest are all of them.
split_header-length :
    (b h r : Bytes) → split_header b ≡ some (h, r) → length b ≡ length h + 4 + length r
unfolding split_header
split_header-length [] h r e = absurd (cc)
split_header-length (x ∷ b) h r e = elim (Bool-cases (starts_with header_end (x ∷ b))) [
  | inl t ↦ let n = starts_with-length header_end (x ∷ b) t in ground (arith, length-drop 3 b)
  | inr t ↦ elim (Option-cases (split_header b)) [
    | inl k ↦ absurd (ground arith)
    | inr ((h', r'), k) ↦ ground (arith, split_header-length b h' r' k)
  ]
]

drop-append {ℓ} :
    {A : Type ℓ} (n : ℕ) (xs ys : List A) → n ≤ length xs → drop n (xs ++ ys) ≡ drop n xs ++ ys
drop-append zero xs ys h = refl
drop-append (suc n) [] ys h = absurd (omega arith)
drop-append (suc n) (x ∷ xs) ys h = drop-append n xs ys (omega arith)

take-append {ℓ} :
    {A : Type ℓ} (n : ℕ) (xs ys : List A) → n ≤ length xs → take n (xs ++ ys) ≡ take n xs
take-append zero xs ys h = refl
take-append (suc n) [] ys h = absurd (omega arith)
take-append (suc n) (x ∷ xs) ys h = ap (◌∷◌ x) (take-append n xs ys (omega arith))

pub split_header-append :
    (b c h r : Bytes) → split_header b ≡ some (h, r) → split_header (b ++ c) ≡ some (h, r ++ c)
unfolding split_header
split_header-append [] c h r e = absurd (cc)
split_header-append (x ∷ b) c h r e =
    let n = split_header-length (x ∷ b) h r e in
    let same = starts_with-append header_end (x ∷ b) c (omega arith) in
    elim (Bool-cases (starts_with header_end (x ∷ b))) [
      | inl t ↦
          let m = starts_with-length header_end (x ∷ b) t in
          let d = drop-append 3 b c (omega arith) in ground arith
      | inr t ↦ elim (Option-cases (split_header b)) [
        | inl k ↦ absurd (ground arith)
        | inr ((h', r'), k) ↦ ground (arith, split_header-append b c h' r' k)
      ]
    ]

read_body-framed :
    (r : Bytes) (n : ℕ) (body rest : Bytes)
    → read_body r n ≡ framed body rest
    → (n ≤ length r) × (body ≡ take n r) × (rest ≡ drop n r)
read_body-framed r n body rest e = (ground arith, ground arith, ground arith)

-- What a complete frame is made of.
read_frame-framed :
    (max : ℕ) (b body rest : Bytes)
    → read_frame max b ≡ framed body rest
    → (h : Bytes) × (r : Bytes) × (n : ℕ) × (split_header b ≡ some (h, r))
      × (ltb max_header_bytes (length h) ≡ false)
      × (content_length h ≡ some n)
      × (ltb max_safe_integer n ≡ false)
      × (ltb max n ≡ false)
      × (read_body r n ≡ framed body rest)
unfolding read_frame
read_frame-framed max b body rest e = elim (Option-cases (split_header b)) [
  | inl k ↦ absurd (ground arith)
  | inr ((h, r), k) ↦ elim (Option-cases (content_length h)) [
    | inl q ↦ absurd (ground arith)
    | inr (n, q) ↦ (h, r, n, k, ground arith, q, ground arith, ground arith, ground arith)
  ]
]

read_frame-of_parts :
    (max : ℕ) (b h r : Bytes) (n : ℕ)
    → split_header b ≡ some (h, r)
    → ltb max_header_bytes (length h) ≡ false
    → content_length h ≡ some n
    → ltb max_safe_integer n ≡ false
    → ltb max n ≡ false
    → n ≤ length r
    → read_frame max b ≡ framed (take n r) (drop n r)
unfolding read_frame
read_frame-of_parts max b h r n k l q s t e = ground arith

-- A complete frame is read in the same way whatever follows it.
pub read_frame-append :
    (max : ℕ) (b c body rest : Bytes)
    → read_frame max b ≡ framed body rest
    → read_frame max (b ++ c) ≡ framed body (rest ++ c)
read_frame-append max b c body rest e =
    let (h, r, n, k, l, q, s, t, f) = read_frame-framed max b body rest e in
    let (m, x, y) = read_body-framed r n body rest f in
    let more : n ≤ length (r ++ c) = omega (arith, length-append r c) in
    read_frame-of_parts max (b ++ c) h (r ++ c) n (split_header-append b c h r k) l q s t more
    ∙ ap (λ z. framed z (drop n (r ++ c))) (take-append n r c m ∙ sym x)
    ∙ ap (framed body) (drop-append n r c m ∙ ap (λ z. z ++ c) (sym y))

-- A round takes something out of the buffer.
pub read_frame-shrinks :
    (max : ℕ) (b body rest : Bytes) → read_frame max b ≡ framed body rest → length rest < length b
read_frame-shrinks max b body rest e =
    let (h, r, n, k, l, q, s, t, f) = read_frame-framed max b body rest e in
    let (m, x, y) = read_body-framed r n body rest f in
    omega (arith, split_header-length b h r k, length-drop n r, ap length y)

-- No carriage return.
abbrev pub Plain : Bytes → Type 0
Plain h = All (λ c. (c == 13) ≡ false) h

pub split_header-Plain : (h r : Bytes) → Plain h → split_header (h ++ header_end ++ r) ≡ some (h, r)
unfolding split_header
split_header-Plain [] r p = refl
split_header-Plain (x ∷ h) r (q, p) = ground (arith, split_header-Plain h r p)

digits-Plain : (t : Text) → All (λ c. is_digit c ≡ true) t → Plain t
unfolding is_digit
digits-Plain [] h = tt
digits-Plain (c ∷ t) (d, h) = (ground arith, digits-Plain t h)

digits-ascii : (t : Text) → All (λ c. is_digit c ≡ true) t → ascii t ≡ t
unfolding is_digit
digits-ascii [] h = refl
digits-ascii (c ∷ t) (d, h) = let e : c % 128 ≡ c = ground arith in ground (arith, digits-ascii t h)

length_value-decimal : (n : ℕ) → n < 10 ^ 20 → length_value (decimal n) ≡ some n
unfolding length_value ends_line
length_value-decimal n h =
    let (c, s, e, d) = decimal-front n in
    let q : digits 0 (c ∷ s) ≡ (n, []) = rw e at (digits-decimal n h) in rw e (rw (d, q) refl)

trim_start-digit : (c : ℕ) (s : Text) → is_digit c ≡ true → trim_start (c ∷ s) ≡ c ∷ s
unfolding trim_start is_space is_digit
trim_start-digit c s h = ground arith

trim_start-decimal : (n : ℕ) → trim_start (32 ∷ decimal n) ≡ decimal n
unfolding trim_start is_space
trim_start-decimal n = let (c, s, e, d) = decimal-front n in rw e (trim_start-digit c s d)

abbrev pub header : ℕ → Bytes
header n = lit "Content-Length: " ++ decimal n

content_length-header : (n : ℕ) → n < 10 ^ 20 → content_length (header n) ≡ some n
unfolding content_length length_from length_at to_lower_unit lit
content_length-header n h =
    let e = digits-ascii (decimal n) (decimal-All n) in
    rw (e, trim_start-decimal n, length_value-decimal n h) refl

pub header-Plain : (n : ℕ) → Plain (header n)
unfolding lit
header-Plain n = (
  refl,
  (
    refl,
    (
      refl,
      (
        refl,
        (
          refl,
          (
            refl,
            (
              refl,
              (
                refl,
                (
                  refl,
                  (
                    refl,
                    (
                      refl,
                      (
                        refl,
                        (refl, (refl, (refl, (refl, digits-Plain (decimal n) (decimal-All n))))),
                      ),
                    ),
                  ),
                ),
              ),
            ),
          ),
        ),
      ),
    ),
  ),
)

digits_from-length : (f n : ℕ) (acc : Text) → length (digits_from f n acc) ≤ f + length acc
unfolding digits_from
digits_from-length zero n acc = omega arith
digits_from-length (suc f) n acc =
    ground (arith, digits_from-length f (n / 10) ((48 + n % 10) ∷ acc))

pub header-length : (n : ℕ) → length (header n) ≤ 36
unfolding lit decimal
header-length n = omega (arith, digits_from-length 20 n [])

-- A frame that the connection writes is read back, with whatever follows it, where its body is within
-- the limit of the reader.
pub read_frame-frame :
    (max : ℕ) (body rest : Bytes)
    → length body ≤ max
    → max ≤ max_safe_integer
    → read_frame max (frame body ++ rest) ≡ framed body rest
unfolding frame
read_frame-frame max body rest h k =
    let n = length body in
    let start = header n ++ header_end in
    let shape : (start ++ body) ++ rest ≡ start ++ (body ++ rest) = append_assoc start body rest in
    let enough : n ≤ length (body ++ rest) = omega (arith, length-append body rest) in
    ap (read_frame max) shape
    ∙ read_frame-of_parts max (start ++ (body ++ rest)) (header n) (body ++ rest) n
        (split_header-Plain (header n) (body ++ rest) (header-Plain n))
        (ground (arith, header-length n)) (content_length-header n (omega arith)) (ground arith)
        (ground arith) enough
    ∙ ap (λ z. framed z (drop n (body ++ rest))) (take-length body rest)
    ∙ ap (framed body) (drop-length body rest)
