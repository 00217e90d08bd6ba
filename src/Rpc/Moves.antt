-- ===== src/Rpc/Moves.antt =====
-- What an incoming message may do to a connection of pi/extensions/lsp/json-rpc.ts: the moves that
-- every branch of `#dispatch` is one of.
use metagenda.Base.{Option, none, some, ◌∷◌, Bool, true, false, leb, ltb, if◌then◌else◌, Outcome}
use metagenda.Base.Int.{ℤ, pos, negsuc}
use metagenda.Base.Text.{Text, lit, text_eq}
use metagenda.Base.Value.{
  Value, undefined, int, obj, Fields, get_field, as_text, has_tag, max_safe_integer,
}
use metagenda.Rpc.Types.{
  Bytes, RpcError, Host, JsonRpcId, Event, notified, asked, PendingRequest, Link,
}
use metagenda.Rpc.Link.{fail_all, send}
use metagenda.Rpc.Dispatch.{
  find_pending, forget, resume, handle_server_request, settle, respond, dispatch_response,
  dispatch_call, dispatch_fields, dispatch, receive, settle_error, dispatch_notification,
  receive_parsed,
}

-- An event that answers no request.
pub data Tells : Event → Type 0 where
  tells_notified : (method : Text) (params : Value) → Tells (notified method params)
  tells_asked : (id : JsonRpcId) (method : Text) (params : Value) → Tells (asked id method params)

module _ (host : Host) where
  pub data Move (l : Link) : Link → Type 0 where
    stays : Move l l
    fails : (cause : RpcError) → Move l (fail_all cause l)
    sends : (message : Value) → Move l (send host message l).0
    tells : (e : Event) → Tells e → Move l (record l { events = e ∷ l.events })
    settles :
        (p : PendingRequest) (r : Outcome RpcError Value) → Move l (resume p.id r (forget p.id l))

  if-Move : (l x y : Link) (b : Bool) → Move l x → Move l y → Move l (if b then x else y)
  if-Move l x y true m n = m
  if-Move l x y false m n = n

  handle_server_request-Move :
      (id : JsonRpcId) (method : Text) (params : Value) (l : Link)
      → Move l (handle_server_request host id method params l)
  unfolding handle_server_request
  handle_server_request-Move id method params l =
      if-Move _ _ _ (text_eq method (lit "workspace/applyEdit")) (sends _) (
        if-Move _ _ _ (text_eq method (lit "workspace/configuration")) (sends _)
          (if-Move _ _ _ host.handles_requests (tells _ (tells_asked id method params)) (sends _)))

  settle_error-Move :
      (p : PendingRequest) (o : Option (ℤ × Text)) (l : Link) → Move l (settle_error host p o l)
  settle_error-Move p none l = fails _
  settle_error-Move p (some (code, m)) l = settles p _

  settle-Move :
      (p : PendingRequest) (message : Fields) (a b : Bool) (l : Link)
      → Move l (settle host p message a b l)
  settle-Move p message true false l = settles p _
  settle-Move p message false true l = settle_error-Move p _ l
  settle-Move p message true true l = fails _
  settle-Move p message false false l = fails _

  respond-Move :
      (message : Fields) (o : Option PendingRequest) (l : Link) → Move l (respond host message o l)
  respond-Move message none l = stays
  respond-Move message (some p) l = settle-Move p message _ _ l

  dispatch_response-Move :
      (message : Fields) (id : Value) (l : Link) → Move l (dispatch_response host message id l)
  dispatch_response-Move message (int (pos n)) l =
      if-Move _ _ _ (leb n max_safe_integer) (respond-Move message (find_pending n l) l) (fails _)
  dispatch_response-Move message (int (negsuc n)) l =
      if-Move _ _ _ (ltb n max_safe_integer) stays (fails _)
  dispatch_response-Move message _ l = fails _

  dispatch_notification-Move :
      (method : Text) (id params : Value) (l : Link)
      → Move l (dispatch_notification host method id params l)
  dispatch_notification-Move method undefined params l = tells _ (tells_notified method params)
  dispatch_notification-Move method _ params l = fails _

  dispatch_call-Move :
      (method : Text) (i : Option JsonRpcId) (id params : Value) (l : Link)
      → Move l (dispatch_call host method i id params l)
  dispatch_call-Move method (some i) id params l = handle_server_request-Move i method params l
  dispatch_call-Move method none id params l = dispatch_notification-Move method id params l

  dispatch_fields-Move :
      (message : Fields) (o : Option Text) (l : Link) → Move l (dispatch_fields host message o l)
  dispatch_fields-Move message (some method) l = dispatch_call-Move method _ _ _ l
  dispatch_fields-Move message none l = dispatch_response-Move message (get_field "id" message) l

  dispatch-Move : (v : Value) (l : Link) → Move l (dispatch host v l)
  unfolding dispatch
  dispatch-Move (obj message) l =
      if-Move _ _ _ (has_tag "2.0" (get_field "jsonrpc" message))
        (dispatch_fields-Move message (as_text (get_field "method" message)) l) (fails _)
  dispatch-Move _ l = fails _

  pub receive-Move : (body : Bytes) (l : Link) → Move l (receive host body l)
  unfolding receive
  receive-Move body l = go (host.parse body)
    where
      go : (o : Option Value) → Move l (receive_parsed host o l)
      go none = fails _
      go (some v) = dispatch-Move v l
