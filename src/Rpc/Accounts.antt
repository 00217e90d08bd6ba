-- ===== src/Rpc/Accounts.antt =====
-- The requests of pi/extensions/lsp/json-rpc.ts: none is lost.
use metagenda.Base.{
  ℕ, ◌<◌, ◌≡◌, refl, sym, ap, subst, ◌⊎◌, inl, inr, Option, none, some, List, [], ◌∷◌, ◌++◌, Bool,
  true, false, not, ◌==◌, if◌then◌else◌, keep, In, In-append_left, In-append_right, Outcome, arith,
  Bool-cases,
}
use metagenda.Base.Value.{Value}
use metagenda.Base.Text.{Text}
use metagenda.Rpc.Types.{Bytes, RpcError, Host, Event, resumed, dropped, PendingRequest, Link}
use metagenda.Rpc.Link.{
  failures, fail_all, shifted, flush_loop, flush_writes, queued, send_body, send, queue_full,
  unserializable,
}
use metagenda.Rpc.Dispatch.{forget, resume, drop_request, reserve}
use metagenda.Rpc.Moves.{Move, stays, fails, sends, tells, settles}
use metagenda.Rpc.Queue.{shut_down, fail_all-idle, fail_all-shuts}

abbrev pub ids : List PendingRequest → List ℕ
ids [] = []
ids (p ∷ ps) = p.id ∷ ids ps

-- The event is an answer to the request, or its interruption.
abbrev pub Settles : ℕ → Event → Type 0
Settles id (resumed n r) = n ≡ id
Settles id (dropped n) = n ≡ id
Settles id _ = ⊥

abbrev pub Settled : ℕ → List Event → Type 0
Settled id [] = ⊥
Settled id (e ∷ es) = Settles id e ⊎ Settled id es

-- Every ID given out, but perhaps one, is pending or settled. No request has the ID 0.
abbrev pub AccountedBut : ℕ → Link → Type 0
AccountedBut k l =
    (id : ℕ) → 0 < id → id < l.next_id → (id ≡ k) ⊎ (In id (ids l.pending) ⊎ Settled id l.events)

failures-Settled :
    (id : ℕ) (cause : RpcError) (ps : List PendingRequest) (es : List Event)
    → In id (ids ps) ⊎ Settled id es
    → Settled id (failures cause ps es)
unfolding failures
failures-Settled id cause [] es (inl m) = elim m [ ]
failures-Settled id cause [] es (inr h) = h
failures-Settled id cause (p ∷ ps) es (inl (inl e)) =
    failures-Settled id cause ps _ (inr (inl (sym e)))
failures-Settled id cause (p ∷ ps) es (inl (inr m)) = failures-Settled id cause ps _ (inl m)
failures-Settled id cause (p ∷ ps) es (inr h) = failures-Settled id cause ps _ (inr (inr h))

shut_down-AccountedBut :
    (k : ℕ) (cause : RpcError) (l : Link) → AccountedBut k l → AccountedBut k (shut_down cause l)
shut_down-AccountedBut k cause l a id z n = elim (a id z n) [
  | inl e ↦ inl e
  | inr h ↦ inr (inr (inr (failures-Settled id cause l.pending l.events h)))
]

pub fail_all-AccountedBut :
    (k : ℕ) (cause : RpcError) (l : Link) → AccountedBut k l → AccountedBut k (fail_all cause l)
fail_all-AccountedBut k cause l a = elim (Bool-cases l.is_closed) [
  | inl e ↦ subst (AccountedBut k) (sym (fail_all-idle cause l e)) a
  | inr e ↦
      subst (AccountedBut k) (sym (fail_all-shuts cause l e)) (shut_down-AccountedBut k cause l a)
]

-- The variables that accounts are about are the same.
pub record SameRequests (l l' : Link) : Type 0 where
  pub same_pending : l'.pending ≡ l.pending
  pub same_events : l'.events ≡ l.events
  pub same_next : l'.next_id ≡ l.next_id
  pub same_closed : l'.is_closed ≡ l.is_closed

pub SameRequests-AccountedBut :
    (k : ℕ) (l l' : Link) → SameRequests l l' → AccountedBut k l → AccountedBut k l'
SameRequests-AccountedBut k l l' s a id z n =
    let h = a id z (subst (λ m. id < m) s.same_next n) in
    subst (λ ps. (id ≡ k) ⊎ (In id (ids ps) ⊎ Settled id l'.events)) (sym s.same_pending)
      (subst (λ es. (id ≡ k) ⊎ (In id (ids l.pending) ⊎ Settled id es)) (sym s.same_events) h)

module _ (host : Host) where
  flush_loop-SameRequests : (fs : List Bytes) (l : Link) → SameRequests l (flush_loop host fs l)
  unfolding flush_loop
  flush_loop-SameRequests [] l = record {
    same_pending = refl;
    same_events = refl;
    same_next = refl;
    same_closed = refl;
  }
  flush_loop-SameRequests (f ∷ fs) l =
      let s = flush_loop-SameRequests fs (shifted host f fs l) in
      record {
        same_pending = ground arith;
        same_events = ground arith;
        same_next = ground arith;
        same_closed = ground arith;
      }

  pub flush_writes-SameRequests : (l : Link) → SameRequests l (flush_writes host l)
  unfolding flush_writes
  flush_writes-SameRequests l =
      let s = flush_loop-SameRequests l.outbound l in
      record {
        same_pending = ground arith;
        same_events = ground arith;
        same_next = ground arith;
        same_closed = ground arith;
      }

  abbrev SendKeeps : Link → Link × Bool → Type 0
  SendKeeps l (l', ok) = (k : ℕ) → AccountedBut k l → AccountedBut k l'

  if-SendKeeps :
      (l : Link) (b : Bool) (x y : Link × Bool)
      → SendKeeps l x
      → SendKeeps l y
      → SendKeeps l (if b then x else y)
  if-SendKeeps l true x y p q = p
  if-SendKeeps l false x y p q = q

  queued-AccountedBut :
      (framed : Bytes) (l : Link) (k : ℕ)
      → AccountedBut k l
      → AccountedBut k (flush_writes host (queued host framed l))
  queued-AccountedBut framed l k a =
      SameRequests-AccountedBut k (queued host framed l) (flush_writes host (queued host framed l))
        (flush_writes-SameRequests (queued host framed l)) a

  send_body-SendKeeps : (o : Option Bytes) (l : Link) → SendKeeps l (send_body host o l)
  send_body-SendKeeps none l = λ k a. fail_all-AccountedBut k unserializable l a
  send_body-SendKeeps (some body) l =
      if-SendKeeps l _ _ _ (λ k a. a)
        (if-SendKeeps l _ _ _ (λ k a. fail_all-AccountedBut k queue_full l a)
          (queued-AccountedBut _ l))

  pub send-AccountedBut :
      (k : ℕ) (message : Value) (l : Link)
      → AccountedBut k l
      → AccountedBut k (send host message l).0
  unfolding send
  send-AccountedBut k message l =
      if-SendKeeps l l.is_closed (l, false) (send_body host (host.stringify message) l) (λ k a. a)
        (send_body-SendKeeps (host.stringify message) l) k

  ids-keep :
      (id n : ℕ) (ps : List PendingRequest)
      → In n (ids ps)
      → (n ≡ id) ⊎ In n (ids (keep (λ p. not (p.id == id)) ps))
  ids-keep id n [] m = elim m [ ]
  ids-keep id n (p ∷ ps) (inl e) = elim (Bool-cases (p.id == id)) [
    | inl t ↦ inl (ground arith)
    | inr t ↦ inr (rw t (inl e))
  ]
  ids-keep id n (p ∷ ps) (inr m) = elim (ids-keep id n ps m) [
    | inl e ↦ inl e
    | inr h ↦ elim (Bool-cases (p.id == id)) [ inl t ↦ inr (rw t h) | inr t ↦ inr (rw t (inr h)) ]
  ]

  pub forget-AccountedBut : (id : ℕ) (l : Link) → AccountedBut 0 l → AccountedBut id (forget id l)
  forget-AccountedBut id l a n z m = elim (a n z m) [
    | inl e ↦ absurd (omega arith)
    | inr (inr h) ↦ inr (inr h)
    | inr (inl h) ↦ elim (ids-keep id n l.pending h) [ inl e ↦ inl e | inr k ↦ inr (inl k) ]
  ]

  pub resume-AccountedBut :
      (id : ℕ) (r : Outcome RpcError Value) (l : Link)
      → AccountedBut id l
      → AccountedBut 0 (resume id r l)
  resume-AccountedBut id r l a n z m = elim (a n z m) [
    | inl e ↦ inr (inr (inl (sym e)))
    | inr (inl h) ↦ inr (inl h)
    | inr (inr h) ↦ inr (inr (inr h))
  ]

  pub drop_request-AccountedBut :
      (id : ℕ) (l : Link) → AccountedBut 0 l → AccountedBut 0 (drop_request id l)
  drop_request-AccountedBut id l a n z m = elim (forget-AccountedBut id l a n z m) [
    | inl e ↦ inr (inr (inl (sym e)))
    | inr (inl h) ↦ inr (inl h)
    | inr (inr h) ↦ inr (inr (inr h))
  ]

  ids-append : (ps qs : List PendingRequest) → ids (ps ++ qs) ≡ ids ps ++ ids qs
  ids-append [] qs = refl
  ids-append (p ∷ ps) qs = ap (◌∷◌ p.id) (ids-append ps qs)

  pub reserve-AccountedBut :
      (method : Text) (l : Link) → AccountedBut 0 l → AccountedBut 0 (reserve host method l)
  reserve-AccountedBut method l a n z m =
      let ids_now = ids-append l.pending (record { id = l.next_id; method = method } ∷ []) in
      elim (Bool-cases (n == l.next_id)) [
        | inl t ↦
            let e : n ≡ l.next_id = ground arith in
            inr (
              inl (
                subst (In n) (sym ids_now)
                  (In-append_right n (ids l.pending) (l.next_id ∷ []) (inl e))))
        | inr t ↦ elim (a n z (ground arith)) [
          | inl e ↦ inl e
          | inr (inr h) ↦ inr (inr h)
          | inr (inl h) ↦ inr (
              inl
                (subst (In n) (sym ids_now) (In-append_left n (ids l.pending) (l.next_id ∷ []) h)))
        ]
      ]

  pub tell-AccountedBut :
      (k : ℕ) (e : Event) (l : Link)
      → AccountedBut k l
      → AccountedBut k (record l { events = e ∷ l.events })
  tell-AccountedBut k e l a n z m = elim (a n z m) [
    | inl q ↦ inl q
    | inr (inl h) ↦ inr (inl h)
    | inr (inr h) ↦ inr (inr (inr h))
  ]

  pub Move-AccountedBut : (l l' : Link) → Move host l l' → AccountedBut 0 l → AccountedBut 0 l'
  Move-AccountedBut l _ stays a = a
  Move-AccountedBut l _ (fails cause) a = fail_all-AccountedBut 0 cause l a
  Move-AccountedBut l _ (sends message) a = send-AccountedBut 0 message l a
  Move-AccountedBut l _ (tells e t) a = tell-AccountedBut 0 e l a
  Move-AccountedBut l _ (settles p r) a =
      resume-AccountedBut p.id r (forget p.id l) (forget-AccountedBut p.id l a)
