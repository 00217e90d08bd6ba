-- ===== src/Rpc/Connection.antt =====
-- The input of pi/extensions/lsp/json-rpc.ts: `#handleData` and the loop of `#drainFrames`.
use metagenda.Base.{ℕ, zero, suc, [], ◌++◌, true, false, if◌then◌else◌, length}
use metagenda.Rpc.Types.{Bytes, Host, Link, Connection}
use metagenda.Rpc.Frame.{incomplete, broken, framed, read_frame}
use metagenda.Rpc.Link.{fail_all}
use metagenda.Rpc.Dispatch.{receive}

abbrev pub empty_link : Link
empty_link = record {
  pending = [];
  outbound = [];
  outbound_bytes = 0;
  waiting_for_drain = false;
  next_id = 1;
  is_closed = false;
  written = [];
  events = [];
}

abbrev pub connect : Connection
connect = record { link = empty_link; buffer = [] }

abbrev pub at : Link → Bytes → Connection
at l b = record { link = l; buffer = b }

-- Any other operation: where it closes the connection, the buffer is dropped.
abbrev pub operate : (Link → Link) → Connection → Connection
operate f c = let l = f c.link in record { link = l; buffer = if l.is_closed then [] else c.buffer }

module _ (host : Host) where
  -- The rounds of the loop on an open connection, on fuel. A round takes a frame out of the buffer.
  unfoldable pub drain : ℕ → Link → Bytes → Connection
  drain zero l buffer = at l buffer
  drain (suc fuel) l buffer = elim (read_frame host.max_message_bytes buffer) [
    | incomplete ↦ at l buffer
    | broken cause ↦ at (fail_all cause l) []
    | framed body rest ↦ elim (receive host body l).is_closed [
      | true ↦ at (receive host body l) []
      | false ↦ drain fuel (receive host body l) rest
    ]
  ]

  -- One round for each byte is more than enough.
  abbrev pub drain_frames : Link → Bytes → Connection
  drain_frames l buffer = drain (suc (length buffer)) l buffer

  unfoldable pub handle_data : Bytes → Connection → Connection
  unfolding drain
  handle_data chunk c = if c.link.is_closed then c else drain_frames c.link (c.buffer ++ chunk)
