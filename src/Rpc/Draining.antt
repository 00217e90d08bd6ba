-- ===== src/Rpc/Draining.antt =====
-- The loop of `#drainFrames` (pi/extensions/lsp/json-rpc.ts): it ends, and it does not matter how the
-- input is cut into chunks.
use metagenda.Base.{
  ℕ, zero, suc, ◌<◌, ◌≡◌, refl, sym, ap, ◌∙◌, ◌⊎◌, inl, inr, [], ◌++◌, true, false, length,
  length-append, arith, Bool-cases,
}
use mathlib.Core.List.{append_assoc}
use metagenda.Rpc.Types.{Bytes, RpcError, Host, Link, Connection}
use metagenda.Rpc.Frame.{Frame, incomplete, broken, framed, read_frame}
use metagenda.Rpc.Framing.{read_frame-append, read_frame-shrinks}
use metagenda.Rpc.Link.{fail_all}
use metagenda.Rpc.Dispatch.{receive}
use metagenda.Rpc.Connection.{at, drain, drain_frames, handle_data}

pub Frame-cases :
    (x : Frame)
    → (x ≡ incomplete)
      ⊎ ((cause : RpcError) × (x ≡ broken cause))
      ⊎ ((body : Bytes) × (rest : Bytes) × (x ≡ framed body rest))
Frame-cases incomplete = inl refl
Frame-cases (broken cause) = inr (inl (cause, refl))
Frame-cases (framed body rest) = inr (inr (body, rest, refl))

pub fail_all-closed : (cause : RpcError) (l : Link) → (fail_all cause l).is_closed ≡ true
unfolding fail_all
fail_all-closed cause l = ground arith

module _ (host : Host) where
  abbrev max : ℕ
  max = host.max_message_bytes

  pub drain-incomplete :
      (f : ℕ) (l : Link) (b : Bytes)
      → read_frame max b ≡ incomplete
      → drain host (suc f) l b ≡ at l b
  unfolding drain
  drain-incomplete f l b e = ground arith

  pub drain-broken :
      (f : ℕ) (l : Link) (b : Bytes) (cause : RpcError)
      → read_frame max b ≡ broken cause
      → drain host (suc f) l b ≡ at (fail_all cause l) []
  unfolding drain
  drain-broken f l b cause e = ground arith

  pub drain-closing :
      (f : ℕ) (l : Link) (b body rest : Bytes)
      → read_frame max b ≡ framed body rest
      → (receive host body l).is_closed ≡ true
      → drain host (suc f) l b ≡ at (receive host body l) []
  unfolding drain
  drain-closing f l b body rest e c = ground arith

  pub drain-next :
      (f : ℕ) (l : Link) (b body rest : Bytes)
      → read_frame max b ≡ framed body rest
      → (receive host body l).is_closed ≡ false
      → drain host (suc f) l b ≡ drain host f (receive host body l) rest
  unfolding drain
  drain-next f l b body rest e c = ground arith

  -- Any fuel above the number of bytes gives the same result.
  pub drain-fuel :
      (f g : ℕ) (l : Link) (b : Bytes)
      → length b < f
      → length b < g
      → drain host f l b ≡ drain host g l b
  drain-fuel zero g l b h k = absurd (omega arith)
  drain-fuel (suc f) zero l b h k = absurd (omega arith)
  drain-fuel (suc f) (suc g) l b h k = elim (Frame-cases (read_frame max b)) [
    | inl e ↦ drain-incomplete f l b e ∙ sym (drain-incomplete g l b e)
    | inr (inl (cause, e)) ↦ drain-broken f l b cause e ∙ sym (drain-broken g l b cause e)
    | inr (inr (body, rest, e)) ↦
        let less = read_frame-shrinks max b body rest e in
        elim (Bool-cases (receive host body l).is_closed) [
          | inl c ↦ drain-closing f l b body rest e c ∙ sym (drain-closing g l b body rest e c)
          | inr c ↦
              drain-next f l b body rest e c
              ∙ drain-fuel f g (receive host body l) rest (omega arith) (omega arith)
              ∙ sym (drain-next g l b body rest e c)
        ]
  ]

  -- What the loop leaves: a closed connection, or a buffer with no complete frame in front.
  abbrev pub Drained : Connection → Type 0
  Drained c = (c.link.is_closed ≡ true) ⊎ (read_frame host.max_message_bytes c.buffer ≡ incomplete)

  drain-Drained : (f : ℕ) (l : Link) (b : Bytes) → length b < f → Drained (drain host f l b)
  drain-Drained zero l b h = absurd (omega arith)
  drain-Drained (suc f) l b h = elim (Frame-cases (read_frame max b)) [
    | inl e ↦ rw (drain-incomplete f l b e) (inr e)
    | inr (inl (cause, e)) ↦ rw (drain-broken f l b cause e) (inl (fail_all-closed cause l))
    | inr (inr (body, rest, e)) ↦
        let less = read_frame-shrinks max b body rest e in
        elim (Bool-cases (receive host body l).is_closed) [
          | inl c ↦ rw (drain-closing f l b body rest e c) (inl c)
          | inr c ↦
              rw (drain-next f l b body rest e c)
                (drain-Drained f (receive host body l) rest (omega arith))
        ]
  ]

  -- Draining a longer buffer is draining its front, and then what is left of it with the rest.
  drain-append :
      (f g k : ℕ) (l : Link) (b c : Bytes)
      → length b < f
      → length (b ++ c) < g
      → (drain host f l b).link.is_closed ≡ false
      → length ((drain host f l b).buffer ++ c) < k
      → drain host k (drain host f l b).link ((drain host f l b).buffer ++ c)
        ≡ drain host g l (b ++ c)
  drain-append zero g k l b c h m o n = absurd (omega arith)
  drain-append (suc f) zero k l b c h m o n = absurd (omega arith)
  drain-append (suc f) (suc g) k l b c h m o n = elim (Frame-cases (read_frame max b)) [
    | inl e ↦
        let same = drain-incomplete f l b e in
        let n' : length (b ++ c) < k = rw same at n in
        rw same (drain-fuel k (suc g) l (b ++ c) n' m)
    | inr (inl (cause, e)) ↦
        let same = drain-broken f l b cause e in
        let o' : (fail_all cause l).is_closed ≡ false = rw same at o in
        absurd (ground (arith, fail_all-closed cause l))
    | inr (inr (body, rest, e)) ↦
        let less = read_frame-shrinks max b body rest e in
        elim (Bool-cases (receive host body l).is_closed) [
          | inl q ↦
              let same = drain-closing f l b body rest e q in
              let o' : (receive host body l).is_closed ≡ false = rw same at o in
              absurd (ground arith)
          | inr q ↦
              let same = drain-next f l b body rest e q in
              let later = receive host body l in
              let o' : (drain host f later rest).link.is_closed ≡ false = rw same at o in
              let n' : length ((drain host f later rest).buffer ++ c) < k = rw same at n in
              let m' : length (rest ++ c) < g =
                omega (arith, length-append rest c, length-append b c) in
              rw same (
                drain-append f g k later rest c (omega arith) m' o' n'
                ∙ sym (
                    drain-next g l (b ++ c) body (rest ++ c) (read_frame-append max b c body rest e)
                      q))
        ]
  ]

  -- Input that comes in two chunks is handled as if it had come in one, unless the first chunk has
  -- closed the connection.
  pub handle_data-append :
      (c : Connection) (a b : Bytes)
      → (handle_data host a c).link.is_closed ≡ false
      → handle_data host b (handle_data host a c) ≡ handle_data host (a ++ b) c
  unfolding handle_data
  handle_data-append c a b o = elim (Bool-cases c.link.is_closed) [
    | inl q ↦ absurd (ground arith)
    | inr q ↦
        let first = handle_data host a c in
        let same : first ≡ drain_frames host c.link (c.buffer ++ a) = ground arith in
        let still : (drain_frames host c.link (c.buffer ++ a)).link.is_closed ≡ false =
          rw same at o in
        let whole : handle_data host (a ++ b) c ≡ drain_frames host c.link ((c.buffer ++ a) ++ b) =
          (ground arith) ∙ ap (drain_frames host c.link) (sym (append_assoc c.buffer a b)) in
        let second : handle_data host b first ≡ drain_frames host first.link (first.buffer ++ b) =
          ground arith in
        second
        ∙ ap (λ z. drain_frames host z.link (z.buffer ++ b)) same
        ∙ drain-append (suc (length (c.buffer ++ a))) (suc (length ((c.buffer ++ a) ++ b)))
            (suc (length ((drain_frames host c.link (c.buffer ++ a)).buffer ++ b))) c.link
            (c.buffer ++ a) b (omega arith) (omega arith) still (omega arith)
        ∙ sym whole
  ]

  -- The loop's rounds are enough: a chunk leaves the connection closed, or with no complete frame in
  -- its buffer.
  pub handle_data-Drained : (c : Connection) (chunk : Bytes) → Drained (handle_data host chunk c)
  unfolding handle_data
  handle_data-Drained c chunk = elim (Bool-cases c.link.is_closed) [
    | inl q ↦ let same : handle_data host chunk c ≡ c = ground arith in rw same (inl q)
    | inr q ↦
        let same : handle_data host chunk c ≡ drain_frames host c.link (c.buffer ++ chunk) =
          ground arith in
        rw same (
          drain-Drained (suc (length (c.buffer ++ chunk))) c.link (c.buffer ++ chunk) (omega arith))
  ]
