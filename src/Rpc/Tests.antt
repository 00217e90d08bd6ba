-- ===== src/Rpc/Tests.antt =====
-- A connection at work: runs of the code, and the theorems at inputs that meet their hypotheses.
use metagenda.Base.{
  ◌<◌, ◌≤◌, ◌≡◌, refl, some, [], ◌∷◌, ◌++◌, true, false, ltb, length, arith, succeed,
}
use metagenda.Base.Int.{pos}
use metagenda.Base.Text.{lit, decimal, text_eq}
use metagenda.Base.Value.{null, int, str, obj, field, end}
use metagenda.Rpc.Types.{Bytes, Host, Connection, resumed}
use metagenda.Rpc.Frame.{frame, framed, read_frame, split_header, header_end}
use metagenda.Rpc.Link.{fail_all, flush_writes, flush_loop, send}
use metagenda.Rpc.Dispatch.{request, receive, dispatch, json_rpc_id}
use metagenda.Rpc.Connection.{at, connect, empty_link, handle_data}
use metagenda.Rpc.Draining.{Drained, handle_data-append, handle_data-Drained}
use metagenda.Rpc.Framing.{read_frame-frame}
use metagenda.Rpc.Stream.{stream, concat, deliver, feed, feed-stream}
use metagenda.Rpc.Queue.{IsQueue, Sent, send-Sent}
use metagenda.Rpc.Accounts.{Settled}
use metagenda.Rpc.Sound.{IsSound}
use metagenda.Rpc.Runs.{
  requests, fails_input, perform, Reached, starts, goes_on, Reached-IsSound, closed-Settled,
}

-- A server that answers the request 1 with every message.
abbrev server : Host
server = record {
  max_message_bytes = 16;
  max_pending = 2;
  handles_requests = false;
  stringify = λ v. some (lit "{}");
  parse = λ bytes. some (
      obj (field "jsonrpc" (str (lit "2.0")) (field "id" (int (pos 1)) (field "result" null end))));
  accepts = λ n. ltb n 1;
}

abbrev body : Bytes
body = lit "{}"

abbrev first_part : Bytes
first_part = lit "Content-Le"

abbrev second_part : Bytes
second_part = lit "ngth: 2" ++ header_end ++ lit "{}"

body_fits : length body ≤ 16
unfolding lit
body_fits = omega arith

parts : concat (first_part ∷ second_part ∷ []) ≡ stream (body ∷ [])
unfolding frame lit decimal
parts = refl

feed-stream_example :
    (feed server (first_part ∷ second_part ∷ []) (at empty_link [])).link
    ≡ deliver server (body ∷ []) empty_link
feed-stream_example =
    feed-stream server (omega arith) (body ∷ []) (first_part ∷ second_part ∷ []) empty_link refl
      (body_fits, tt) parts

read_frame-frame_example : read_frame 16 (frame body ++ 67 ∷ []) ≡ framed body (67 ∷ [])
read_frame-frame_example = read_frame-frame 16 body (67 ∷ []) body_fits (omega arith)

first_open : (handle_data server first_part connect).link.is_closed ≡ false
unfolding handle_data read_frame split_header lit
first_open = refl

handle_data-append_example :
    handle_data server second_part (handle_data server first_part connect)
    ≡ handle_data server (first_part ++ second_part) connect
handle_data-append_example = handle_data-append server connect first_part second_part first_open

handle_data-Drained_example :
    Drained server (handle_data server (first_part ++ second_part) connect)
handle_data-Drained_example = handle_data-Drained server connect (first_part ++ second_part)

empty_link-IsQueue : IsQueue empty_link
empty_link-IsQueue = record { counted = refl; bounded = omega arith; cleared = λ c. absurd (cc) }

send-Sent_example : Sent server null empty_link (send server null empty_link)
send-Sent_example = send-Sent server null empty_link empty_link-IsQueue

abbrev requesting : Connection
requesting = perform server (requests (lit "shutdown") null) connect

requesting-Reached : Reached server requesting
requesting-Reached = goes_on (requests (lit "shutdown") null) connect starts

Reached-IsSound_example : IsSound requesting.link
Reached-IsSound_example = Reached-IsSound server requesting requesting-Reached

abbrev failed : Connection
failed = perform server fails_input requesting

failed_closed : failed.link.is_closed ≡ true
unfolding perform fail_all request send lit frame decimal flush_writes flush_loop
failed_closed = refl

failed_next : 1 < failed.link.next_id
unfolding perform fail_all request send lit frame decimal flush_writes flush_loop
failed_next = omega arith

closed-Settled_example : Settled 1 failed.link.events
closed-Settled_example =
    closed-Settled server failed (goes_on fails_input requesting requesting-Reached) failed_closed 1
      (omega arith) failed_next

answered_run : (receive server body requesting.link).events ≡ resumed 1 (succeed null) ∷ []
unfolding receive dispatch json_rpc_id perform fail_all request send lit frame decimal flush_writes
    flush_loop text_eq
answered_run = refl
