-- ===== src/Rpc/Dispatch.antt =====
-- The messages of pi/extensions/lsp/json-rpc.ts: `request` with its timer and its interruption,
-- `notify`, `#dispatch` and `#handleServerRequest`.
use metagenda.Base.{
  ℕ, ◌+◌, Option, none, some, [], ◌∷◌, ◌++◌, Bool, true, false, not, ◌&&◌, ◌==◌, ltb, leb,
  if◌then◌else◌, length, take, find, keep, any, Outcome, succeed, fail,
}
use metagenda.Base.Int.{ℤ, pos, negsuc}
use metagenda.Base.Bounded.{is_control, bounded_text}
use metagenda.Base.Text.{Text, lit, text_eq, is_empty, decimal}
use metagenda.Base.Value.{
  Value, undefined, bool, int, str, arr, obj, Fields, nil, end, field, get_field, as_text, has_tag,
  has_own, max_safe_integer,
}
use metagenda.Rpc.Types.{
  Bytes, RpcError, closed, invalid_message, pending_limit, timeout, server_error, write_failed,
  error, Host, JsonRpcId, number, string, resumed, dropped, notified, asked, PendingRequest, Link,
  Requested, refused, issued,
}
use metagenda.Rpc.Link.{fail_all, send}

abbrev pub is_safe : ℤ → Bool
is_safe (pos n) = leb n max_safe_integer
is_safe (negsuc n) = ltb n max_safe_integer

-- `isJsonRpcId(v) ? v : undefined`
unfoldable pub json_rpc_id : Value → Option JsonRpcId
json_rpc_id (int z) = if is_safe z then some (number z) else none
json_rpc_id (str s) =
    if not (is_empty s) && leb (length s) 128 && not (any is_control s)
    then some (string s)
    else none
json_rpc_id _ = none

abbrev pub versioned : Fields → Value
versioned fs = obj (field "jsonrpc" (str (lit "2.0")) fs)

abbrev pub id_value : JsonRpcId → Value
id_value (number z) = int z
id_value (string s) = str s

abbrev pub cancel_message : ℕ → Value
cancel_message id = versioned (
    field "method" (str (lit "$/cancelRequest"))
      (field "params" (obj (field "id" (int (pos id)) end)) end))

abbrev pub request_message : ℕ → Text → Value → Value
request_message id method params =
    versioned (field "id" (int (pos id)) (field "method" (str method) (field "params" params end)))

abbrev pub notification_message : Text → Value → Value
notification_message method params =
    versioned (field "method" (str method) (field "params" params end))

abbrev pub result_message : JsonRpcId → Value → Value
result_message id result = versioned (field "id" (id_value id) (field "result" result end))

abbrev pub error_message : JsonRpcId → ℤ → Text → Value
error_message id code message = versioned (
    field "id" (id_value id)
      (field "error" (obj (field "code" (int code) (field "message" (str message) end))) end))

abbrev pub find_pending : ℕ → Link → Option PendingRequest
find_pending id l = find (λ p. p.id == id) l.pending

abbrev pub forget : ℕ → Link → Link
forget id l = record l { pending = keep (λ p. not (p.id == id)) l.pending }

abbrev pub drop_request : ℕ → Link → Link
drop_request id l = record (forget id l) { events = dropped id ∷ l.events }

abbrev pub resume : ℕ → Outcome RpcError Value → Link → Link
resume id result l = record l { events = resumed id result ∷ l.events }

unfoldable pub closed_error : RpcError
closed_error = error closed (lit "LSP connection is closed")

unfoldable pub invalid : Text → RpcError
invalid message = error invalid_message message

module _ (host : Host) where
  abbrev pub reserve : Text → Link → Link
  reserve method l = record l {
    pending = l.pending ++ record { id = l.next_id; method = method } ∷ [];
    next_id = l.next_id + 1;
  }

  abbrev pub sent_or_failed : ℕ → Link × Bool → Link
  sent_or_failed id (l, true) = l
  sent_or_failed id (l, false) =
      resume id (fail (error write_failed (lit "Could not write LSP request"))) (forget id l)

  unfoldable pub request : Text → Value → Link → Link × Requested
  request method params l =
      if l.is_closed
      then (l, refused closed_error)
      else if leb host.max_pending (length l.pending)
      then (
        l,
        refused (
            error pending_limit (
              lit "LSP connection already has "
              ++ decimal host.max_pending
              ++ lit " pending requests")),
      )
      else (
        sent_or_failed l.next_id
            (send host (request_message l.next_id method params) (reserve method l)),
        issued l.next_id,
      )

  abbrev pub time_out : ℕ → ℕ → Link → PendingRequest → Link
  time_out id timeout_ms l p =
      resume id
        (fail (
          error timeout (
            lit "LSP request "
            ++ p.method
            ++ lit " timed out after "
            ++ decimal timeout_ms
            ++ lit "ms")))
        (send host (cancel_message id) (forget id l)).0

  -- The timer of a request.
  unfoldable pub timed_out : ℕ → ℕ → Link → Link
  timed_out id timeout_ms l = elim (find_pending id l) [
    | none ↦ l
    | some p ↦ time_out id timeout_ms l p
  ]

  -- The caller's interruption of a request.
  unfoldable pub interrupted : ℕ → Link → Link
  interrupted id l = elim (find_pending id l) [
    | none ↦ l
    | some p ↦ (send host (cancel_message id) (drop_request id l)).0
  ]

  unfoldable pub notify : Text → Value → Link → Link × Outcome RpcError (Unit {0})
  notify method params l =
      if l.is_closed
      then (l, fail closed_error)
      else (let (after, sent) = send host (notification_message method params) l in
          (
            after,
            if sent
                then succeed tt
                else fail (error write_failed (lit "Could not write LSP notification")),
          ))

  -- `#handleServerRequest` up to its `await`.
  unfoldable pub handle_server_request : JsonRpcId → Text → Value → Link → Link
  handle_server_request id method params l =
      if text_eq method (lit "workspace/applyEdit")
      then (send host
          (result_message id (
            obj (
              field "applied" (bool false) (
                field "failureReason" (str (lit "LSP edits require a digest-bound tool preview"))
                  end))))
          l).0
      else if text_eq method (lit "workspace/configuration")
      then (send host (result_message id (arr nil)) l).0
      else if host.handles_requests
      then record l { events = asked id method params ∷ l.events }
      else (send host
          (error_message id (negsuc 32600) (lit "Unsupported server request: " ++ method)) l).0

  -- What comes behind the `await`: the handler's result, or what it threw as text.
  unfoldable pub answered : JsonRpcId → Outcome Text Value → Link → Link
  answered id (succeed result) l = (send host (result_message id result) l).0
  answered id (fail cause) l = (send host (error_message id (negsuc 32602) (take 500 cause)) l).0

  abbrev pub server_diagnostic : Text → Text
  server_diagnostic message =
      if is_empty (bounded_text 500 message)
      then lit "Language server rejected the request without a diagnostic"
      else bounded_text 500 message

  unfoldable pub rejection : PendingRequest → ℤ → Text → RpcError
  rejection p code message = record {
    code = server_error;
    message = lit "LSP " ++ p.method ++ lit " failed: " ++ server_diagnostic message;
    server = some (code, server_diagnostic message);
  }

  abbrev pub with_code : Value → Option Text → Option (ℤ × Text)
  with_code (int z) (some m) = if is_safe z then some (z, m) else none
  with_code _ _ = none

  -- `error` of a response: its code and its message.
  abbrev pub error_parts : Value → Option (ℤ × Text)
  error_parts (obj fs) = with_code (get_field "code" fs) (as_text (get_field "message" fs))
  error_parts _ = none

  abbrev pub settle_error : PendingRequest → Option (ℤ × Text) → Link → Link
  settle_error p none l = fail_all (invalid (lit "LSP error response is malformed")) l
  settle_error p (some (code, m)) l = resume p.id (fail (rejection p code m)) (forget p.id l)

  -- A response to a pending request, by `hasResult` and `hasError`.
  abbrev pub settle : PendingRequest → Fields → Bool → Bool → Link → Link
  settle p message true false l = resume p.id (succeed (get_field "result" message)) (forget p.id l)
  settle p message false true l = settle_error p (error_parts (get_field "error" message)) l
  settle p message _ _ l =
      fail_all (invalid (lit "LSP response must contain exactly one of result or error")) l

  abbrev pub respond : Fields → Option PendingRequest → Link → Link
  respond message none l = l
  respond message (some p) l =
      settle p message (has_own "result" message) (has_own "error" message) l

  abbrev pub bad_response_id : Link → Link
  bad_response_id l = fail_all (invalid (lit "LSP response ID must be a safe integer")) l

  abbrev pub dispatch_response : Fields → Value → Link → Link
  dispatch_response message (int (pos n)) l =
      if leb n max_safe_integer then respond message (find_pending n l) l else bad_response_id l
  dispatch_response message (int (negsuc n)) l =
      if ltb n max_safe_integer then l else bad_response_id l
  dispatch_response message _ l = bad_response_id l

  -- A message with a method and no valid ID.
  abbrev pub dispatch_notification : Text → Value → Value → Link → Link
  dispatch_notification method undefined params l = record l {
    events = notified method params ∷ l.events;
  }
  dispatch_notification method _ params l =
      fail_all (invalid (lit "LSP server request ID is invalid")) l

  abbrev pub dispatch_call : Text → Option JsonRpcId → Value → Value → Link → Link
  dispatch_call method (some i) id params l = handle_server_request i method params l
  dispatch_call method none id params l = dispatch_notification method id params l

  abbrev pub dispatch_fields : Fields → Option Text → Link → Link
  dispatch_fields message (some method) l =
      dispatch_call method (json_rpc_id (get_field "id" message)) (get_field "id" message)
        (get_field "params" message) l
  dispatch_fields message none l = dispatch_response message (get_field "id" message) l

  abbrev pub not_json_rpc : Link → Link
  not_json_rpc l = fail_all (invalid (lit "LSP message is not JSON-RPC 2.0")) l

  unfoldable pub dispatch : Value → Link → Link
  dispatch (obj message) l =
      if has_tag "2.0" (get_field "jsonrpc" message)
      then dispatch_fields message (as_text (get_field "method" message)) l
      else not_json_rpc l
  dispatch _ l = not_json_rpc l

  abbrev pub receive_parsed : Option Value → Link → Link
  receive_parsed none l = fail_all (invalid (lit "LSP message is not valid JSON")) l
  receive_parsed (some message) l = dispatch message l

  -- A message's bytes, as `#drainFrames` hands them on.
  unfoldable pub receive : Bytes → Link → Link
  receive body l = receive_parsed (host.parse body) l
