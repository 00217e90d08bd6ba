-- ===== src/Rpc/Link.antt =====
-- The outbound queue of pi/extensions/lsp/json-rpc.ts and the end of a connection: `#flushWrites`,
-- `#send` and `#failAll`.
use metagenda.Base.{
  ◌+◌, ◌-◌, Option, none, some, List, [], ◌∷◌, ◌++◌, Bool, true, false, ◌||◌, ltb, if◌then◌else◌,
  length, fail,
}
use metagenda.Base.Text.{Text, lit}
use metagenda.Base.Value.{Value}
use metagenda.Rpc.Types.{
  Bytes, RpcError, closed, write_failed, error, Host, Event, resumed, shut, PendingRequest, Link,
  max_outbound_queue_bytes,
}
use metagenda.Rpc.Frame.{frame}

-- The calls of `resume` for all pending requests, in their order, the latest first.
unfoldable pub failures : RpcError → List PendingRequest → List Event → List Event
failures cause [] events = events
failures cause (p ∷ ps) events = failures cause ps (resumed p.id (fail cause) ∷ events)

unfoldable pub fail_all : RpcError → Link → Link
fail_all cause l = if l.is_closed then l else record l {
  pending = [];
  outbound = [];
  outbound_bytes = 0;
  waiting_for_drain = false;
  is_closed = true;
  events = shut cause ∷ failures cause l.pending l.events;
}

-- `error`, `end` and `close` of the streams, and `dispose`.
abbrev pub input_failed : Link → Link
input_failed l = fail_all (error closed (lit "LSP input stream failed")) l

abbrev pub input_ended : Link → Link
input_ended l = fail_all (error closed (lit "LSP input stream closed")) l

abbrev pub output_failed : Link → Link
output_failed l = fail_all (error write_failed (lit "LSP output stream failed")) l

abbrev pub dispose : Text → Link → Link
dispose reason l = fail_all (error closed reason) l

unfoldable pub unserializable : RpcError
unserializable = error write_failed (lit "Could not serialize LSP message")

unfoldable pub queue_full : RpcError
queue_full = error write_failed (lit "LSP outbound queue exceeds its byte limit")

module _ (host : Host) where
  abbrev pub shifted : Bytes → List Bytes → Link → Link
  shifted f fs l = record l {
    outbound = fs;
    outbound_bytes = l.outbound_bytes - length f;
    written = l.written ++ f ∷ [];
  }

  -- The loop over the queue, until the stream asks to wait for `drain`.
  unfoldable pub flush_loop : List Bytes → Link → Link
  flush_loop [] l = l
  flush_loop (f ∷ fs) l =
      let next = flush_loop fs (shifted f fs l) in
      if host.accepts (length l.written)
      then next
      else record (shifted f fs l) { waiting_for_drain = true }

  unfoldable pub flush_writes : Link → Link
  flush_writes l = if l.is_closed || l.waiting_for_drain then l else flush_loop l.outbound l

  abbrev pub handle_drain : Link → Link
  handle_drain l = flush_writes (record l { waiting_for_drain = false })

  abbrev pub queued : Bytes → Link → Link
  queued framed l = record l {
    outbound = l.outbound ++ framed ∷ [];
    outbound_bytes = l.outbound_bytes + length framed;
  }

  abbrev pub enqueue : Bytes → Link → Link × Bool
  enqueue framed l =
      if ltb max_outbound_queue_bytes (l.outbound_bytes + length framed)
      then (fail_all queue_full l, false)
      else (flush_writes (queued framed l), true)

  abbrev pub send_body : Option Bytes → Link → Link × Bool
  send_body none l = (fail_all unserializable l, false)
  send_body (some body) l =
      if ltb host.max_message_bytes (length body) then (l, false) else enqueue (frame body) l

  unfoldable pub send : Value → Link → Link × Bool
  send message l = if l.is_closed then (l, false) else send_body (host.stringify message) l
