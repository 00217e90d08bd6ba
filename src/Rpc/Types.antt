-- ===== src/Rpc/Types.antt =====
-- The data of pi/extensions/lsp/json-rpc.ts.
use metagenda.Base.{ℕ, Option, Bool, List, Outcome}
use metagenda.Base.Int.{ℤ}
use metagenda.Base.Text.{Text}
use metagenda.Base.Value.{Value}

abbrev pub Bytes : Type 0
Bytes = List ℕ

pub data Code : Type 0 where
  closed invalid_frame message_too_large invalid_message pending_limit timeout server_error : Code
  write_failed : Code

-- `LspRpcError` without its cause; `server` is `serverCode` with `serverDiagnostic`.
pub record RpcError : Type 0 where
  pub code : Code
  pub message : Text
  pub server : Option (ℤ × Text)

pub data JsonRpcId : Type 0 where
  number : ℤ → JsonRpcId
  string : Text → JsonRpcId

-- What the connection is made with: its limits, whether it has an `onRequest`, and the parts that it
-- calls. `stringify` is `Buffer.from(JSON.stringify(…))`, `none` where it throws, `parse` is
-- `JSON.parse` of the bytes as UTF-8, and `accepts n` is the answer of the stream's `write` to the
-- frame that comes after n others.
pub record Host : Type 0 where
  pub max_message_bytes : ℕ
  pub max_pending : ℕ
  pub handles_requests : Bool
  pub stringify : Value → Option Bytes
  pub parse : Bytes → Option Value
  pub accepts : ℕ → Bool

-- What the connection calls back; `dropped` is a caller's interruption of its own request.
pub data Event : Type 0 where
  resumed : ℕ → Outcome RpcError Value → Event
  dropped : ℕ → Event
  notified : Text → Value → Event
  asked : JsonRpcId → Text → Value → Event
  shut : RpcError → Event

pub record PendingRequest : Type 0 where
  pub id : ℕ
  pub method : Text

-- The answer of `request`: refused at once, or sent under an ID.
pub data Requested : Type 0 where
  refused : RpcError → Requested
  issued : ℕ → Requested

-- The variables of the connection but its input buffer. `written` holds the frames that the output
-- stream was given, `events` what was called back, the latest first.
pub record Link : Type 0 where
  pub pending : List PendingRequest
  pub outbound : List Bytes
  pub outbound_bytes : ℕ
  pub waiting_for_drain : Bool
  pub next_id : ℕ
  pub is_closed : Bool
  pub written : List Bytes
  pub events : List Event

pub record Connection : Type 0 where
  pub link : Link
  pub buffer : Bytes

abbrev pub max_header_bytes : ℕ
max_header_bytes = 8192

abbrev pub max_outbound_queue_bytes : ℕ
max_outbound_queue_bytes = 4194304

abbrev pub error : Code → Text → RpcError
error code message = record { code = code; message = message; server = Option.none }
