-- ===== src/Rpc/Queue.antt =====
-- The outbound queue of pi/extensions/lsp/json-rpc.ts: its bytes are counted and bounded, and frames
-- leave in the order of their sending.
use metagenda.Base.{
  ℕ, ◌+◌, ◌≤◌, ◌≡◌, refl, sym, ap, ◌∙◌, inl, inr, Option, none, some, List, [], ◌∷◌, ◌++◌, Bool,
  true, false, not, ◌==◌, ltb, length, keep, arith, Bool-cases,
}
use mathlib.Core.List.{append_assoc}
use metagenda.Base.Value.{Value}
use metagenda.Rpc.Types.{
  Bytes, RpcError, Host, Event, shut, PendingRequest, Link, max_outbound_queue_bytes,
}
use metagenda.Rpc.Frame.{frame}
use metagenda.Rpc.Link.{
  failures, fail_all, shifted, flush_loop, flush_writes, queued, enqueue, send_body, send,
  queue_full, unserializable,
}
use metagenda.Rpc.Dispatch.{forget}
use metagenda.Rpc.Moves.{Move, stays, fails, sends, tells, settles}

abbrev pub total : List Bytes → ℕ
total [] = 0
total (f ∷ fs) = length f + total fs

-- The count of queued bytes is exact and bounded, and a closed connection has nothing left.
pub record IsQueue (l : Link) : Type 0 where
  pub counted : l.outbound_bytes ≡ total l.outbound
  pub bounded : l.outbound_bytes ≤ max_outbound_queue_bytes
  pub cleared : l.is_closed ≡ true → (l.outbound ≡ []) × (l.pending ≡ [])

total-append : (fs gs : List Bytes) → total (fs ++ gs) ≡ total fs + total gs
total-append [] gs = omega arith
total-append (f ∷ fs) gs = omega (arith, total-append fs gs)

-- The frames that were sent, in their order: those given to the stream, then those that wait.
abbrev pub sent : Link → List Bytes
sent l = l.written ++ l.outbound

abbrev pub shut_down : RpcError → Link → Link
shut_down cause l = record l {
  pending = [];
  outbound = [];
  outbound_bytes = 0;
  waiting_for_drain = false;
  is_closed = true;
  events = shut cause ∷ failures cause l.pending l.events;
}

pub fail_all-idle : (cause : RpcError) (l : Link) → l.is_closed ≡ true → fail_all cause l ≡ l
unfolding fail_all
fail_all-idle cause l e = ground arith

pub fail_all-shuts :
    (cause : RpcError) (l : Link) → l.is_closed ≡ false → fail_all cause l ≡ shut_down cause l
unfolding fail_all
fail_all-shuts cause l e = ground arith

pub fail_all-IsQueue : (cause : RpcError) (l : Link) → IsQueue l → IsQueue (fail_all cause l)
fail_all-IsQueue cause l q = elim (Bool-cases l.is_closed) [
  | inl e ↦ let same = fail_all-idle cause l e in rw same q
  | inr e ↦
      let same = fail_all-shuts cause l e in
      let q' : IsQueue (shut_down cause l) = record {
        counted = refl;
        bounded = omega arith;
        cleared = λ c. (refl, refl);
      } in
      rw same q'
]

module _ (host : Host) where
  flush_loop-IsQueue :
      (fs : List Bytes) (l : Link)
      → l.outbound ≡ fs
      → l.is_closed ≡ false
      → IsQueue l
      → IsQueue (flush_loop host fs l) × (sent (flush_loop host fs l) ≡ sent l)
  unfolding flush_loop
  flush_loop-IsQueue [] l e o q = (q, refl)
  flush_loop-IsQueue (f ∷ fs) l e o q =
      let total_now : l.outbound_bytes ≡ length f + total fs = q.counted ∙ ap total e in
      let next = shifted host f fs l in
      let same : sent next ≡ sent l =
        append_assoc l.written (f ∷ []) fs ∙ ap (λ z. l.written ++ z) (sym e) in
      let q' : IsQueue next = record {
        counted = omega arith;
        bounded = omega (arith, q.bounded);
        cleared = λ c. absurd (ground arith);
      } in
      let (r, k) = flush_loop-IsQueue fs next refl o q' in
      elim (Bool-cases (host.accepts (length l.written))) [
        | inl t ↦ rw t (r, k ∙ same)
        | inr t ↦ rw t (
          record {
            counted = q'.counted;
            bounded = q'.bounded;
            cleared = λ c. absurd (ground arith);
          },
          same,
        )
      ]

  pub flush_writes-IsQueue :
      (l : Link) → IsQueue l → IsQueue (flush_writes host l) × (sent (flush_writes host l) ≡ sent l)
  unfolding flush_writes
  flush_writes-IsQueue l q = elim (Bool-cases l.is_closed) [
    | inl c ↦ let same : flush_writes host l ≡ l = ground arith in rw same (q, refl)
    | inr c ↦ elim (Bool-cases l.waiting_for_drain) [
      | inl w ↦ let same : flush_writes host l ≡ l = ground arith in rw same (q, refl)
      | inr w ↦
          let same : flush_writes host l ≡ flush_loop host l.outbound l = ground arith in
          rw same (flush_loop-IsQueue l.outbound l refl c q)
    ]
  ]

  enqueue-IsQueue :
      (framed : Bytes) (l : Link)
      → l.is_closed ≡ false
      → IsQueue l
      → IsQueue (enqueue host framed l).0
        × ((enqueue host framed l).1 ≡ true
            → sent (enqueue host framed l).0 ≡ sent l ++ framed ∷ [])
  enqueue-IsQueue framed l o q =
      elim (Bool-cases (ltb max_outbound_queue_bytes (l.outbound_bytes + length framed))) [
        | inl t ↦
            let same : enqueue host framed l ≡ (fail_all queue_full l, false) = ground arith in
            rw same (fail_all-IsQueue queue_full l q, λ c. absurd (cc))
        | inr t ↦
            let same : enqueue host framed l ≡ (flush_writes host (queued host framed l), true) =
              ground arith in
            let q' : IsQueue (queued host framed l) = record {
              counted = omega (arith, q.counted, total-append l.outbound (framed ∷ []));
              bounded = ground arith;
              cleared = λ c. absurd (ground arith);
            } in
            let (r, k) = flush_writes-IsQueue (queued host framed l) q' in
            rw same (r, λ c. k ∙ sym (append_assoc l.written l.outbound (framed ∷ [])))
      ]

  -- What a call of `#send` does to the connection.
  abbrev pub Sent : Value → Link → Link × Bool → Type 0
  Sent message l (l', ok) =
      IsQueue l'
      × (ok ≡ true
          → (body : Bytes) × (host.stringify message ≡ some body)
            × (length body ≤ host.max_message_bytes)
            × (sent l' ≡ sent l ++ frame body ∷ []))

  send_body-Sent :
      (message : Value) (o : Option Bytes) (l : Link)
      → host.stringify message ≡ o
      → l.is_closed ≡ false
      → IsQueue l
      → Sent message l (send_body host o l)
  send_body-Sent message none l e o q = (fail_all-IsQueue unserializable l q, λ c. absurd (cc))
  send_body-Sent message (some body) l e o q =
      elim (Bool-cases (ltb host.max_message_bytes (length body))) [
        | inl t ↦
            let same : send_body host (some body) l ≡ (l, false) = ground arith in
            rw same (q, λ c. absurd (cc))
        | inr t ↦
            let same : send_body host (some body) l ≡ enqueue host (frame body) l = ground arith in
            let (r, k) = enqueue-IsQueue (frame body) l o q in
            rw same (r, λ c. (body, e, ground arith, k c))
      ]

  -- Sending keeps the queue's count exact and bounded; where it reports success, the frame of the
  -- message, which is within the size limit, comes behind all frames sent before, and none of those
  -- is lost or reordered.
  pub send-Sent : (message : Value) (l : Link) → IsQueue l → Sent message l (send host message l)
  unfolding send
  send-Sent message l q = elim (Bool-cases l.is_closed) [
    | inl c ↦
        let same : send host message l ≡ (l, false) = ground arith in rw same (q, λ k. absurd (cc))
    | inr c ↦
        let same : send host message l ≡ send_body host (host.stringify message) l = ground arith in
        rw same (send_body-Sent message (host.stringify message) l refl c q)
  ]

  keep-nil : (id : ℕ) (ps : List PendingRequest) → ps ≡ [] → keep (λ p. not (p.id == id)) ps ≡ []
  keep-nil id [] e = refl
  keep-nil id (p ∷ ps) e = absurd (cc)

  pub forget-IsQueue : (id : ℕ) (l : Link) → IsQueue l → IsQueue (forget id l)
  forget-IsQueue id l q = record {
    counted = q.counted;
    bounded = q.bounded;
    cleared = λ c. let (a, b) = q.cleared c in (a, keep-nil id l.pending b);
  }

  pub tell-IsQueue : (es : List Event) (l : Link) → IsQueue l → IsQueue (record l { events = es })
  tell-IsQueue es l q = record { counted = q.counted; bounded = q.bounded; cleared = q.cleared }

  pub Move-IsQueue : (l l' : Link) → Move host l l' → IsQueue l → IsQueue l'
  Move-IsQueue l _ stays q = q
  Move-IsQueue l _ (fails cause) q = fail_all-IsQueue cause l q
  Move-IsQueue l _ (sends message) q = (send-Sent message l q).0
  Move-IsQueue l _ (tells e t) q = tell-IsQueue (e ∷ l.events) l q
  Move-IsQueue l _ (settles p r) q =
      let q' = forget-IsQueue p.id l q in
      record { counted = q'.counted; bounded = q'.bounded; cleared = q'.cleared }
