-- ===== src/Rpc/Sound.antt =====
-- The operations of pi/extensions/lsp/json-rpc.ts keep a connection's queue and its requests in order.
use metagenda.Base.{
  ℕ, zero, suc, ◌≡◌, inl, inr, ◌++◌, Bool, true, false, ◌∷◌, Outcome, succeed, fail, leb, length,
  arith, Bool-cases, Option-cases,
}
use metagenda.Base.Text.{Text}
use metagenda.Base.Value.{Value}
use metagenda.Rpc.Types.{
  Bytes, dropped, RpcError, Host, JsonRpcId, PendingRequest, Link, Connection,
}
use metagenda.Rpc.Frame.{read_frame}
use metagenda.Rpc.Link.{fail_all, flush_writes, handle_drain, send}
use metagenda.Rpc.Dispatch.{
  find_pending, forget, resume, drop_request, reserve, request, request_message, sent_or_failed,
  timed_out, time_out, cancel_message, interrupted, notify, notification_message, answered, receive,
}
use metagenda.Rpc.Connection.{drain, handle_data}
use metagenda.Rpc.Draining.{Frame-cases, drain-incomplete, drain-broken, drain-closing, drain-next}
use metagenda.Rpc.Moves.{receive-Move}
use metagenda.Rpc.Queue.{
  IsQueue, fail_all-IsQueue, flush_writes-IsQueue, send-Sent, forget-IsQueue, tell-IsQueue,
  Move-IsQueue,
}
use metagenda.Rpc.Accounts.{
  AccountedBut, SameRequests-AccountedBut, flush_writes-SameRequests, fail_all-AccountedBut,
  send-AccountedBut, forget-AccountedBut, resume-AccountedBut, drop_request-AccountedBut,
  reserve-AccountedBut, Move-AccountedBut,
}

-- What holds of a connection at any time.
pub record IsSound (l : Link) : Type 0 where
  pub queue : IsQueue l
  pub accounts : AccountedBut 0 l

pub fail_all-IsSound : (cause : RpcError) (l : Link) → IsSound l → IsSound (fail_all cause l)
fail_all-IsSound cause l s = record {
  queue = fail_all-IsQueue cause l s.queue;
  accounts = fail_all-AccountedBut 0 cause l s.accounts;
}

module _ (host : Host) where
  resume-IsSound :
      (id : ℕ) (r : Outcome RpcError Value) (l : Link)
      → IsQueue l
      → AccountedBut id l
      → IsSound (resume id r l)
  resume-IsSound id r l q a = record {
    queue = record { counted = q.counted; bounded = q.bounded; cleared = q.cleared };
    accounts = resume-AccountedBut host id r l a;
  }

  send-IsSound : (message : Value) (l : Link) → IsSound l → IsSound (send host message l).0
  send-IsSound message l s = record {
    queue = (send-Sent host message l s.queue).0;
    accounts = send-AccountedBut host 0 message l s.accounts;
  }

  receive-IsSound : (body : Bytes) (l : Link) → IsSound l → IsSound (receive host body l)
  receive-IsSound body l s = record {
    queue = Move-IsQueue host l (receive host body l) (receive-Move host body l) s.queue;
    accounts = Move-AccountedBut host l (receive host body l) (receive-Move host body l) s.accounts;
  }

  flush_writes-IsSound : (l : Link) → IsSound l → IsSound (flush_writes host l)
  flush_writes-IsSound l s = record {
    queue = (flush_writes-IsQueue host l s.queue).0;
    accounts =
        SameRequests-AccountedBut 0 l (flush_writes host l) (flush_writes-SameRequests host l)
          s.accounts;
  }

  drain-IsSound : (f : ℕ) (l : Link) (b : Bytes) → IsSound l → IsSound (drain host f l b).link
  unfolding drain
  drain-IsSound zero l b s = s
  drain-IsSound (suc f) l b s = elim (Frame-cases (read_frame host.max_message_bytes b)) [
    | inl e ↦ rw (drain-incomplete host f l b e) s
    | inr (inl (cause, e)) ↦ rw (drain-broken host f l b cause e) (fail_all-IsSound cause l s)
    | inr (inr (body, rest, e)) ↦ elim (Bool-cases (receive host body l).is_closed) [
      | inl c ↦ rw (drain-closing host f l b body rest e c) (receive-IsSound body l s)
      | inr c ↦
          rw (drain-next host f l b body rest e c)
            (drain-IsSound f (receive host body l) rest (receive-IsSound body l s))
    ]
  ]

  pub handle_data-IsSound :
      (chunk : Bytes) (c : Connection) → IsSound c.link → IsSound (handle_data host chunk c).link
  unfolding handle_data
  handle_data-IsSound chunk c s = elim (Bool-cases c.link.is_closed) [
    | inl e ↦ let same : handle_data host chunk c ≡ c = ground arith in rw same s
    | inr e ↦
        let same : handle_data host chunk c
            ≡ drain host (suc (length (c.buffer ++ chunk))) c.link (c.buffer ++ chunk) =
          ground arith in
        rw same (drain-IsSound (suc (length (c.buffer ++ chunk))) c.link (c.buffer ++ chunk) s)
  ]

  time_out-IsSound :
      (id ms : ℕ) (l : Link) (p : PendingRequest) → IsSound l → IsSound (time_out host id ms l p)
  time_out-IsSound id ms l p s =
      let a = forget-AccountedBut host id l s.accounts in
      resume-IsSound id _ (send host (cancel_message id) (forget id l)).0
        (send-Sent host (cancel_message id) (forget id l) (forget-IsQueue host id l s.queue)).0
        (send-AccountedBut host id (cancel_message id) (forget id l) a)

  pub timed_out-IsSound : (id ms : ℕ) (l : Link) → IsSound l → IsSound (timed_out host id ms l)
  unfolding timed_out
  timed_out-IsSound id ms l s = elim (Option-cases (find_pending id l)) [
    | inl e ↦ let same : timed_out host id ms l ≡ l = ground arith in rw same s
    | inr (p, e) ↦
        let same : timed_out host id ms l ≡ time_out host id ms l p = ground arith in
        rw same (time_out-IsSound id ms l p s)
  ]

  drop_request-IsSound : (id : ℕ) (l : Link) → IsSound l → IsSound (drop_request id l)
  drop_request-IsSound id l s = record {
    queue =
        tell-IsQueue host (dropped id ∷ l.events) (forget id l) (forget-IsQueue host id l s.queue);
    accounts = drop_request-AccountedBut host id l s.accounts;
  }

  pub interrupted-IsSound : (id : ℕ) (l : Link) → IsSound l → IsSound (interrupted host id l)
  unfolding interrupted
  interrupted-IsSound id l s = elim (Option-cases (find_pending id l)) [
    | inl e ↦ let same : interrupted host id l ≡ l = ground arith in rw same s
    | inr (p, e) ↦
        let same : interrupted host id l ≡ (send host (cancel_message id) (drop_request id l)).0 =
          ground arith in
        rw same (send-IsSound (cancel_message id) (drop_request id l) (drop_request-IsSound id l s))
  ]

  sent_or_failed-IsSound :
      (id : ℕ) (l : Link) (ok : Bool) → IsSound l → IsSound (sent_or_failed host id (l, ok))
  sent_or_failed-IsSound id l true s = s
  sent_or_failed-IsSound id l false s =
      resume-IsSound id _ (forget id l) (forget-IsQueue host id l s.queue)
        (forget-AccountedBut host id l s.accounts)

  reserve-IsSound :
      (method : Text) (l : Link) → l.is_closed ≡ false → IsSound l → IsSound (reserve host method l)
  reserve-IsSound method l o s = record {
    queue = record {
      counted = s.queue.counted;
      bounded = s.queue.bounded;
      cleared = λ c. absurd (ground arith);
    };
    accounts = reserve-AccountedBut host method l s.accounts;
  }

  pub request-IsSound :
      (method : Text) (params : Value) (l : Link)
      → IsSound l
      → IsSound (request host method params l).0
  unfolding request
  request-IsSound method params l s = elim (Bool-cases l.is_closed) [
    | inl c ↦ let same : (request host method params l).0 ≡ l = ground arith in rw same s
    | inr c ↦ elim (Bool-cases (leb host.max_pending (length l.pending))) [
      | inl t ↦ let same : (request host method params l).0 ≡ l = ground arith in rw same s
      | inr t ↦
          let message = request_message l.next_id method params in
          let tried = send host message (reserve host method l) in
          let same : (request host method params l).0 ≡ sent_or_failed host l.next_id tried =
            ground arith in
          rw same (
            sent_or_failed-IsSound l.next_id tried.0 tried.1
              (send-IsSound message (reserve host method l) (reserve-IsSound method l c s)))
    ]
  ]

  pub notify-IsSound :
      (method : Text) (params : Value) (l : Link)
      → IsSound l
      → IsSound (notify host method params l).0
  unfolding notify
  notify-IsSound method params l s = elim (Bool-cases l.is_closed) [
    | inl c ↦ let same : (notify host method params l).0 ≡ l = ground arith in rw same s
    | inr c ↦
        let message = notification_message method params in
        let same : (notify host method params l).0 ≡ (send host message l).0 = ground arith in
        rw same (send-IsSound message l s)
  ]

  pub answered-IsSound :
      (id : JsonRpcId) (r : Outcome Text Value) (l : Link)
      → IsSound l
      → IsSound (answered host id r l)
  unfolding answered
  answered-IsSound id (succeed v) l s = send-IsSound _ l s
  answered-IsSound id (fail c) l s = send-IsSound _ l s

  pub handle_drain-IsSound : (l : Link) → IsSound l → IsSound (handle_drain host l)
  handle_drain-IsSound l s =
      flush_writes-IsSound (record l { waiting_for_drain = false })
        (record {
          queue = record {
            counted = s.queue.counted;
            bounded = s.queue.bounded;
            cleared = s.queue.cleared;
          };
          accounts = s.accounts;
        })
