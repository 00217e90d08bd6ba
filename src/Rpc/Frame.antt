-- ===== src/Rpc/Frame.antt =====
-- One frame of pi/extensions/lsp/json-rpc.ts: what `#drainFrames` reads in a round, and the frame that
-- `#send` writes.
use metagenda.Base.{
  ℕ, ◌%◌, Option, none, some, [], ◌∷◌, ◌++◌, Bool, true, false, ◌||◌, ◌==◌, ltb, if◌then◌else◌,
  length, take, drop, map,
}
use metagenda.Base.Digits.{is_digit, digits}
use metagenda.Base.Search.{starts_with}
use metagenda.Base.Text.{Text, lit, is_space, to_lower_unit, decimal, trim_start}
use metagenda.Base.Value.{max_safe_integer}
use metagenda.Rpc.Types.{Bytes, RpcError, invalid_frame, message_too_large, error, max_header_bytes}

abbrev pub header_end : Bytes
header_end = 13 ∷ 10 ∷ 13 ∷ 10 ∷ []

-- `buffer.indexOf("\r\n\r\n")`: the bytes before it and behind it.
unfoldable pub split_header : Bytes → Option (Bytes × Bytes)
split_header [] = none
split_header (b ∷ bs) =
    let later = split_header bs in
    if starts_with header_end (b ∷ bs)
    then some ([], drop 3 bs)
    else elim later [ none ↦ none | some (header, rest) ↦ some (b ∷ header, rest) ]

-- `toString("ascii")` drops the high bit of a byte.
abbrev pub ascii : Bytes → Text
ascii bs = map (λ b. b % 128) bs

abbrev pub is_newline : ℕ → Bool
is_newline c = c == 10 || c == 13

-- `\s*$` with the flag `m`: white space up to a line's end.
unfoldable pub ends_line : Text → Bool
ends_line [] = true
ends_line (c ∷ cs) =
    let rest = ends_line cs in if is_newline c then true else if is_space c then rest else false

abbrev pub line_number : ℕ × Text → Option ℕ
line_number (n, rest) = if ends_line rest then some n else none

-- `(\d+)\s*$`
unfoldable pub length_value : Text → Option ℕ
unfolding ends_line
length_value [] = none
length_value (c ∷ cs) = if is_digit c then line_number (digits 0 (c ∷ cs)) else none

-- The pattern `/^Content-Length:\s*(\d+)\s*$/imu` at the start of a line. No digit is white space, so
-- that only the last `\s*` may give characters back, down to a line's end.
unfoldable pub length_at : Text → Option ℕ
unfolding length_value
length_at line =
    if starts_with (lit "content-length:") (map to_lower_unit line)
    then length_value (trim_start (drop 15 line))
    else none

unfoldable pub length_from : Bool → Text → Option ℕ
length_from at_start [] = none
length_from at_start (c ∷ cs) =
    let later = length_from (is_newline c) cs in
    if at_start then elim (length_at (c ∷ cs)) [ none ↦ later | some n ↦ some n ] else later

unfoldable pub content_length : Bytes → Option ℕ
unfolding length_from
content_length header = length_from true (ascii header)

-- What a round of `#drainFrames` finds in the buffer.
pub data Frame : Type 0 where
  incomplete : Frame
  broken : RpcError → Frame
  framed : Bytes → Bytes → Frame

unfoldable pub header_too_long : RpcError
header_too_long = error invalid_frame (lit "LSP frame header exceeds the limit")

abbrev pub read_body : Bytes → ℕ → Frame
read_body rest n = if ltb (length rest) n then incomplete else framed (take n rest) (drop n rest)

abbrev pub read_length : ℕ → Bytes → Option ℕ → Frame
read_length max rest none = broken (error invalid_frame (lit "LSP frame is missing Content-Length"))
read_length max rest (some n) =
    if ltb max_safe_integer n
    then broken (error invalid_frame (lit "LSP Content-Length is invalid"))
    else if ltb max n
    then broken
        (error message_too_large (lit "LSP message exceeds " ++ decimal max ++ lit " bytes"))
    else read_body rest n

abbrev pub read_split : ℕ → Bytes → Option (Bytes × Bytes) → Frame
read_split max buffer none =
    if ltb max_header_bytes (length buffer) then broken header_too_long else incomplete
read_split max buffer (some (header, rest)) =
    if ltb max_header_bytes (length header)
    then broken header_too_long
    else read_length max rest (content_length header)

unfoldable pub read_frame : ℕ → Bytes → Frame
read_frame max buffer = read_split max buffer (split_header buffer)

-- The frame of a message's bytes.
unfoldable pub frame : Bytes → Bytes
frame body = (lit "Content-Length: " ++ decimal (length body)) ++ header_end ++ body
