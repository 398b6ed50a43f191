-- ===== src/Team/WebSocket.antt =====
-- src/team/websocket.ts: one connection after its handshake. A text stands as its UTF-8 bytes. What
-- the connection calls on its socket and on the two callbacks of its owner is a list of calls; what
-- the owner does to the connection while a message is handed to it is a parameter.
pub mod Frames
pub mod Bounds
pub mod Headers
pub mod Handling
pub mod Draining
use Prim.Native.Nat.{bit_and, bit_or, bit_xor}
use narra_leaf_team.Common.{
  ℕ, zero, suc, ◌+◌, ◌-◌, ◌*◌, ◌/◌, ◌%◌, ◌^◌, Bool, true, false, not, ◌&&◌, ◌||◌, Option, none,
  some, List, [], ◌∷◌, ◌++◌, ltb, leb, ◌==◌, if◌then◌else◌, length, take, drop, get_or, is_some,
  Text, codes,
}
use narra_leaf_team.Data.Bytes.{Bytes}

abbrev pub op_continuation : ℕ
op_continuation = 0x0

abbrev pub op_text : ℕ
op_text = 0x1

abbrev pub op_binary : ℕ
op_binary = 0x2

abbrev pub op_close : ℕ
op_close = 0x8

abbrev pub op_ping : ℕ
op_ping = 0x9

abbrev pub op_pong : ℕ
op_pong = 0xa

-- The close codes that the connection uses itself.
abbrev pub going_away : ℕ
going_away = 1001

abbrev pub protocol_error : ℕ
protocol_error = 1002

abbrev pub unsupported_data : ℕ
unsupported_data = 1003

abbrev pub policy : ℕ
policy = 1008

abbrev pub too_large : ℕ
too_large = 1009

abbrev pub control_payload_limit : ℕ
control_payload_limit = 125

pub record WebSocketOptions : Type 0 where
  pub maximum_message_bytes : ℕ
  pub maximum_buffered_bytes : ℕ
  pub heartbeat_ms : ℕ

-- What a connection reads of its socket. The length of what is queued grows by what is written.
pub record Duplex : Type 0 where
  pub destroyed : Bool
  pub writable_ended : Bool
  pub writable_length : ℕ

pub data CloseReason : Type 0 where
  words : Bytes → CloseReason
  closed_with : ℕ → CloseReason

pub data WebSocketCall : Type 0 where
  wrote : Bytes → WebSocketCall
  ended_socket : WebSocketCall
  on_message : Bytes → WebSocketCall
  on_close : CloseReason → WebSocketCall

pub record WebSocketConnection : Type 0 where
  pub options : WebSocketOptions
  pub socket : Duplex
  pub pending : Bytes
  pub fragments : List Bytes
  pub fragment_bytes : ℕ
  pub fragmented_opcode : Option ℕ
  pub heartbeat : Bool
  pub last_heard : ℕ
  pub ended : Bool
  pub closing : Bool
  pub calls : List WebSocketCall

abbrev pub call : WebSocketCall → WebSocketConnection → WebSocketConnection
call e c = record c { calls = c.calls ++ (e ∷ []) }

-- `writeUInt16BE` and `writeBigUInt64BE`.
abbrev pub write_uint16_be : ℕ → Bytes
write_uint16_be n = (n / 2 ^ 8 % 256) ∷ (n % 256) ∷ []

abbrev write_uint64_be : ℕ → Bytes
write_uint64_be n =
    (n / 2 ^ 56 % 256)
    ∷ (n / 2 ^ 48 % 256)
    ∷ (n / 2 ^ 40 % 256)
    ∷ (n / 2 ^ 32 % 256)
    ∷ (n / 2 ^ 24 % 256)
    ∷ (n / 2 ^ 16 % 256)
    ∷ (n / 2 ^ 8 % 256)
    ∷ (n % 256)
    ∷ []

unfoldable pub frame_header : ℕ → ℕ → Bytes
frame_header opcode size =
    let first = bit_or 0x80 opcode in
    if ltb size 126
    then first ∷ size ∷ []
    else if ltb size 0x10000
    then first ∷ 126 ∷ write_uint16_be size
    else first ∷ 127 ∷ write_uint64_be size

abbrev pub is_gone : Duplex → Bool
is_gone s = s.destroyed || s.writable_ended

-- The end of `write`: the frame goes to the socket.
unfoldable pub put_frame : ℕ → Bytes → WebSocketConnection → WebSocketConnection
put_frame opcode payload c =
    let frame = frame_header opcode (length payload) ++ payload in
    let queued = c.socket.writable_length + length frame in
    call (wrote frame) (record c { socket = record c.socket { writable_length = queued } })

unfoldable pub finish : CloseReason → WebSocketConnection → WebSocketConnection
finish reason c =
    if c.ended
    then c
    else call (on_close reason) (record c {
      ended = true;
      closing = true;
      heartbeat = false;
      pending = [];
      fragments = [];
      fragment_bytes = 0;
    })

-- The write of the close frame: while the connection is closing no backlog refuses a frame.
unfoldable pub write_closing : Bytes → WebSocketConnection → WebSocketConnection
write_closing payload c = if is_gone c.socket then c else put_frame op_close payload c

unfoldable pub end_socket : WebSocketConnection → WebSocketConnection
end_socket c = call ended_socket (record c { socket = record c.socket { writable_ended = true } })

abbrev reason_of : ℕ → Bytes → CloseReason
reason_of code [] = closed_with code
reason_of code (b ∷ bs) = words (b ∷ bs)

unfoldable pub close : ℕ → Bytes → WebSocketConnection → WebSocketConnection
close code reason c =
    let payload = write_uint16_be code ++ take (control_payload_limit - 2) reason in
    if c.ended
    then c
    else end_socket
        (finish (reason_of code reason) (write_closing payload (record c { closing = true })))

abbrev pub backlog : Bytes
backlog = codes "more is queued for this connection than it is reading"

unfoldable pub write : ℕ → Bytes → WebSocketConnection → WebSocketConnection
write opcode payload c =
    if is_gone c.socket
    then c
    else if not c.closing && ltb c.options.maximum_buffered_bytes c.socket.writable_length
    then close policy backlog c
    else put_frame opcode payload c

unfoldable pub send : Bytes → WebSocketConnection → WebSocketConnection
send text c = if c.ended then c else write op_text text c

-- What the owner of a connection may do to it.
pub data Reaction : Type 0 where
  sends : Bytes → Reaction
  closes : ℕ → Bytes → Reaction

unfoldable pub react : List Reaction → WebSocketConnection → WebSocketConnection
react [] c = c
react (sends text ∷ rs) c = react rs (send text c)
react (closes code reason ∷ rs) c = react rs (close code reason c)

pub record Frame : Type 0 where
  pub opcode : ℕ
  pub payload : Bytes
  pub final : Bool
