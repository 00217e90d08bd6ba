-- ===== src/Rpc/Stream.antt =====
-- The input of pi/extensions/lsp/json-rpc.ts against its specification: a list of message bodies.
use metagenda.Base.{
  ℕ, zero, suc, ◌<◌, ◌≤◌, ◌≡◌, ◌≢◌, refl, sym, ap, ◌∙◌, ◌⊎◌, inl, inr, none, some, List, [], ◌∷◌,
  ◌++◌, true, false, if◌then◌else◌, ltb, length, length-append, All, arith, Bool-cases,
  Option-cases,
}
use mathlib.Core.List.{append_assoc, append-nil}
use metagenda.Base.Value.{max_safe_integer}
use metagenda.Rpc.Types.{Bytes, RpcError, Host, Link, Connection}
use metagenda.Rpc.Frame.{
  incomplete, broken, framed, read_frame, split_header, frame, header_end, content_length,
}
use metagenda.Rpc.Framing.{
  header, header-length, header-Plain, split_header-Plain, split_header-append, read_frame-append,
  read_frame-shrinks, read_frame-frame,
}
use metagenda.Rpc.Dispatch.{receive}
use metagenda.Rpc.Connection.{at, drain, drain_frames, handle_data}
use metagenda.Rpc.Draining.{
  Frame-cases, drain-next, drain-closing, drain-incomplete, handle_data-Drained,
}

-- The frames of some messages, one behind the other.
abbrev pub stream : List Bytes → Bytes
stream [] = []
stream (x ∷ xs) = frame x ++ stream xs

abbrev pub concat : List Bytes → Bytes
concat [] = []
concat (x ∷ xs) = x ++ concat xs

module _ (host : Host) where
  -- What a connection does with a list of messages, whatever bytes they came in.
  abbrev pub deliver : List Bytes → Link → Link
  deliver [] l = l
  deliver (x ∷ xs) l =
      let later = deliver xs (receive host x l) in
      if (receive host x l).is_closed then receive host x l else later

  abbrev pub feed : List Bytes → Connection → Connection
  feed [] c = c
  feed (chunk ∷ chunks) c = feed chunks (handle_data host chunk c)

-- A shorter front of one list is a front of the other.
front-of : (p q d r : Bytes) → p ++ q ≡ d ++ r → length p ≤ length d → (d' : Bytes) × (d ≡ p ++ d')
front-of [] q d r e h = (d, refl)
front-of (x ∷ p) q [] r e h = absurd (omega arith)
front-of (x ∷ p) q (y ∷ d) r e h =
    let (d', k) = front-of p q d r (cc) (omega arith) in let same : y ≡ x = cc in (d', ground arith)

-- Where a frame starts the buffer and its header is not complete, the buffer is short.
frame-short : (x d r s : Bytes) → frame x ++ s ≡ d ++ r → split_header d ≡ none → length d ≤ 40
unfolding frame
frame-short x d r s e k =
    let start = header (length x) ++ header_end in
    elim (Bool-cases (ltb (length d) (length start))) [
      | inl t ↦
          ground (arith, header-length (length x), length-append (header (length x)) header_end)
      | inr t ↦
          let (d', q) =
            front-of start (x ++ s) d r (sym (append_assoc start x s) ∙ e) (ground arith) in
          let found : split_header d ≡ some (header (length x), d') =
            ap split_header q
            ∙ split_header-Plain (header (length x)) d' (header-Plain (length x)) in
          absurd (ground arith)
    ]

broken-append :
    (max : ℕ) (d r h rest : Bytes) (cause : RpcError)
    → split_header d ≡ some (h, rest)
    → read_frame max d ≡ broken cause
    → read_frame max (d ++ r) ≡ broken cause
unfolding read_frame
broken-append max d r h rest cause k e =
    let k' = split_header-append d r h rest k in
    elim (Option-cases (content_length h)) [ inl q ↦ ground arith | inr (n, q) ↦ ground arith ]

module _ (host : Host) (safe : host.max_message_bytes ≤ max_safe_integer) where
  abbrev max : ℕ
  max = host.max_message_bytes

  abbrev pub Fits : List Bytes → Type 0
  Fits xs = All (λ x. length x ≤ host.max_message_bytes) xs

  read_frame-stream :
      (x : Bytes) (xs : List Bytes)
      → length x ≤ max
      → read_frame max (stream (x ∷ xs)) ≡ framed x (stream xs)
  read_frame-stream x xs h = read_frame-frame max x (stream xs) h safe

  -- No front of a stream is refused.
  front-ne-broken :
      (xs : List Bytes) (d r : Bytes) (cause : RpcError)
      → Fits xs
      → d ++ r ≡ stream xs
      → read_frame max d ≢ broken cause
  unfolding read_frame split_header
  front-ne-broken [] [] r cause h e k = absurd (cc)
  front-ne-broken [] (y ∷ d) r cause h e k = absurd (cc)
  front-ne-broken (x ∷ xs) d r cause (h, hs) e k = elim (Option-cases (split_header d)) [
    | inl q ↦ absurd (ground (arith, frame-short x d r (stream xs) (sym e) q))
    | inr ((hd, rest), q) ↦
        let clash : broken cause ≡ framed x (stream xs) =
          sym (broken-append max d r hd rest cause q k)
          ∙ ap (read_frame max) e
          ∙ read_frame-stream x xs h in
        absurd (ground arith)
  ]

  -- The frame in front of a stream is its first.
  front-framed :
      (xs : List Bytes) (d r body rest : Bytes)
      → Fits xs
      → d ++ r ≡ stream xs
      → read_frame max d ≡ framed body rest
      → (ys : List Bytes) × (xs ≡ body ∷ ys) × (rest ++ r ≡ stream ys) × Fits ys
  front-framed xs d r body rest h e k =
      go xs h (sym (ap (read_frame max) e) ∙ read_frame-append max d r body rest k)
    where
      go :
          (xs : List Bytes)
          → Fits xs
          → read_frame max (stream xs) ≡ framed body (rest ++ r)
          → (ys : List Bytes) × (xs ≡ body ∷ ys) × (rest ++ r ≡ stream ys) × Fits ys
      go [] h q = absurd (ground (arith, read_frame-shrinks max [] body (rest ++ r) q))
      go (x ∷ xs) (h, hs) q =
          let first = read_frame-stream x xs h in
          let same : framed x (stream xs) ≡ framed body (rest ++ r) = sym first ∙ q in
          let b : x ≡ body = cc in
          let t : rest ++ r ≡ stream xs = cc in (xs, ap (λ z. z ∷ xs) b, t, hs)

  -- Where a run over a front of a stream stands: closed with all done that will be, or open with the
  -- rest still to come.
  abbrev Stands : List Bytes → Link → Bytes → Connection → Type 0
  Stands xs l r c =
      ((c.link.is_closed ≡ true) × (c.link ≡ deliver host xs l))
      ⊎ ((c.link.is_closed ≡ false)
          × ((ys : List Bytes) × (c.buffer ++ r ≡ stream ys)
              × Fits ys
              × (deliver host ys c.link ≡ deliver host xs l)))

  drain-Stands :
      (f : ℕ) (xs : List Bytes) (l : Link) (d r : Bytes)
      → length d < f
      → l.is_closed ≡ false
      → Fits xs
      → d ++ r ≡ stream xs
      → Stands xs l r (drain host f l d)
  drain-Stands zero xs l d r m o h e = absurd (omega arith)
  drain-Stands (suc f) xs l d r m o h e = elim (Frame-cases (read_frame max d)) [
    | inl k ↦ rw (drain-incomplete host f l d k) (inr (o, (xs, e, h, refl)))
    | inr (inl (cause, k)) ↦ absurd (front-ne-broken xs d r cause h e k)
    | inr (inr (body, rest, k)) ↦
        let less = read_frame-shrinks max d body rest k in
        let (ys, q, t, hs) = front-framed xs d r body rest h e k in
        elim (Bool-cases (receive host body l).is_closed) [
          | inl c ↦
              let done : receive host body l ≡ deliver host xs l = ground arith in
              rw (drain-closing host f l d body rest k c) (inl (c, done))
          | inr c ↦
              let later = receive host body l in
              let same : deliver host ys later ≡ deliver host xs l = ground arith in
              rw (drain-next host f l d body rest k c)
                (rw (← same) (drain-Stands f ys later rest r (omega arith) c hs t))
        ]
  ]

  feed-closed :
      (chunks : List Bytes) (c : Connection) → c.link.is_closed ≡ true → feed host chunks c ≡ c
  unfolding handle_data
  feed-closed [] c h = refl
  feed-closed (chunk ∷ chunks) c h =
      let same : handle_data host chunk c ≡ c = ground arith in
      ap (feed host chunks) same ∙ feed-closed chunks c h

  handle_data-Stands :
      (xs : List Bytes) (c : Connection) (chunk r : Bytes)
      → c.link.is_closed ≡ false
      → Fits xs
      → c.buffer ++ (chunk ++ r) ≡ stream xs
      → Stands xs c.link r (handle_data host chunk c)
  unfolding handle_data
  handle_data-Stands xs c chunk r o h e =
      let same : handle_data host chunk c ≡ drain_frames host c.link (c.buffer ++ chunk) =
        ground arith in
      rw same (
        drain-Stands (suc (length (c.buffer ++ chunk))) xs c.link (c.buffer ++ chunk) r
          (omega arith) o h (append_assoc c.buffer chunk r ∙ e))

  feed-deliver :
      (chunks xs : List Bytes) (c : Connection)
      → c.link.is_closed ≡ false
      → read_frame max c.buffer ≡ incomplete
      → Fits xs
      → c.buffer ++ concat chunks ≡ stream xs
      → (feed host chunks c).link ≡ deliver host xs c.link
  feed-deliver [] [] c o i h e = refl
  feed-deliver [] (x ∷ xs) c o i (h, hs) e =
      let clash : incomplete ≡ framed x (stream xs) =
        sym i ∙ ap (read_frame max) (sym (append-nil c.buffer) ∙ e) ∙ read_frame-stream x xs h in
      absurd (ground arith)
  feed-deliver (chunk ∷ chunks) xs c o i h e =
      let after = handle_data host chunk c in
      elim (handle_data-Stands xs c chunk (concat chunks) o h e) [
        | inl (q, k) ↦ ap (λ z. z.link) (feed-closed chunks after q) ∙ k
        | inr (q, (ys, t, hs, k)) ↦ elim (handle_data-Drained host c chunk) [
          | inl z ↦ absurd (ground arith)
          | inr z ↦ feed-deliver chunks ys after q z hs t ∙ k
        ]
      ]

  -- However the frames of some messages, each within the size limit, are cut into chunks, an open
  -- connection handles exactly those messages, in their order, up to one that closes it.
  pub feed-stream :
      (xs chunks : List Bytes) (l : Link)
      → l.is_closed ≡ false
      → Fits xs
      → concat chunks ≡ stream xs
      → (feed host chunks (at l [])).link ≡ deliver host xs l
  unfolding read_frame split_header
  feed-stream xs chunks l o h e = feed-deliver chunks xs (at l []) o refl h e
