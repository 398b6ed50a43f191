-- ===== src/Team/WebSocket/Frames.antt =====
-- What src/team/websocket.ts does with the bytes that arrive: frames, messages and the loop over them.
use Prim.Native.Nat.{bit_and, bit_xor}
use narra_leaf_team.Common.{
  ℕ, zero, suc, ◌+◌, ◌-◌, ◌*◌, ◌%◌, ◌^◌, Bool, true, false, not, ◌&&◌, ◌||◌, Option, none, some,
  List, [], ◌∷◌, ◌++◌, ltb, leb, ◌==◌, if◌then◌else◌, length, take, drop, get_or, is_some, codes,
}
use narra_leaf_team.Data.Bytes.{Bytes}
use narra_leaf_team.Team.WebSocket.{
  WebSocketConnection, WebSocketCall, WebSocketOptions, Duplex, on_message, words, Frame, Reaction,
  call, finish, end_socket, close, write, react, op_continuation, op_text, op_binary, op_close,
  op_ping, op_pong, protocol_error, too_large, unsupported_data, going_away, control_payload_limit,
}

-- What `readFrame` finds: not all of a frame, a breach that closes the connection, or a frame with
-- the bytes behind it.
pub data Read : Type 0 where
  incomplete : Read
  breach : ℕ → Bytes → Read
  frame : Frame → Bytes → Read

-- The mask is four bytes, applied in turn.
unfoldable pub unmask : Bytes → ℕ → Bytes → Bytes
unmask mask index [] = []
unmask mask index (b ∷ bs) = bit_xor b (get_or mask (index % 4) 0) ∷ unmask mask (index + 1) bs

abbrev pub reserved_bit : Bytes
reserved_bit = codes "a reserved bit was set and no extension was agreed"

abbrev pub must_be_masked : Bytes
must_be_masked = codes "a frame from a client must be masked"

abbrev pub larger : Bytes
larger = codes "that message is larger than this server accepts"

abbrev pub short_control : Bytes
short_control = codes "a control frame must be short and unfragmented"

-- The end of `readFrame`: `rest` begins behind the length of the payload.
unfoldable pub read_payload : ℕ → ℕ → Bool → ℕ → ℕ → Bytes → Read
read_payload maximum held final opcode size rest =
    let body = drop 4 rest in
    let whole =
      frame
        (record {
          opcode = opcode;
          payload = unmask (take 4 rest) 0 (take size body);
          final = final;
        })
        (drop size body) in
    if leb 8 opcode && (not final || ltb control_payload_limit size)
    then breach protocol_error short_control
    else if not (leb 8 opcode) && ltb maximum (held + size)
    then breach too_large larger
    else if ltb (length rest) (4 + size)
    then incomplete
    else whole

-- The length of the payload in the two bytes, or in the eight, behind the second.
unfoldable pub read_short : ℕ → ℕ → Bool → ℕ → Bytes → Read
read_short maximum held final opcode (a ∷ b ∷ rest) =
    read_payload maximum held final opcode (a * 2 ^ 8 + b) rest
read_short maximum held final opcode _ = incomplete

unfoldable pub read_long : ℕ → ℕ → Bool → ℕ → Bytes → Read
read_long maximum held final opcode (a ∷ b ∷ c ∷ d ∷ e ∷ f ∷ g ∷ h ∷ rest) =
    let high = a * 2 ^ 56 + b * 2 ^ 48 + c * 2 ^ 40 + d * 2 ^ 32 in
    let big = high + e * 2 ^ 24 + f * 2 ^ 16 + g * 2 ^ 8 + h in
    if ltb maximum big
    then breach too_large larger
    else read_payload maximum held final opcode big rest
read_long maximum held final opcode _ = incomplete

unfoldable pub read_length : ℕ → ℕ → Bool → ℕ → ℕ → Bytes → Read
read_length maximum held final opcode size rest =
    if size == 126
    then read_short maximum held final opcode rest
    else if size == 127
    then read_long maximum held final opcode rest
    else read_payload maximum held final opcode size rest

-- `held` is how much the fragments of the message total so far.
unfoldable pub read_frame : ℕ → ℕ → Bytes → Read
read_frame maximum held (first ∷ second ∷ rest) =
    if not (bit_and first 0x70 == 0)
    then breach protocol_error reserved_bit
    else if bit_and second 0x80 == 0
    then breach protocol_error must_be_masked
    else read_length maximum held (not (bit_and first 0x80 == 0)) (bit_and first 0x0f)
        (bit_and second 0x7f) rest
read_frame maximum held _ = incomplete

-- An opcode is below 16.
abbrev decimal : ℕ → Bytes
decimal n = if ltb n 10 then (48 + n) ∷ [] else 49 ∷ (38 + n) ∷ []

abbrev pub concat : List Bytes → Bytes
concat [] = []
concat (b ∷ bs) = b ++ concat bs

-- What the owner does while a message is handed over, given the calls so far.
module _ (owner : List WebSocketCall → Bytes → List Reaction) where
  unfoldable pub hand_over : Bytes → WebSocketConnection → WebSocketConnection
  hand_over text c = react (owner c.calls text) (call (on_message text) c)

  -- The end of `collect`: a fragment of a message that has begun.
  unfoldable pub gather : Bytes → Bool → WebSocketConnection → WebSocketConnection
  gather payload final c =
      let total = c.fragment_bytes + length payload in
      let counted = record c { fragment_bytes = total } in
      let parts = c.fragments ++ (payload ∷ []) in
      if ltb c.options.maximum_message_bytes total
      then close too_large larger counted
      else if not final
      then record counted { fragments = parts }
      else hand_over (concat parts)
          (record counted { fragments = []; fragment_bytes = 0; fragmented_opcode = none })

  unfoldable pub collect : Frame → WebSocketConnection → WebSocketConnection
  collect f c =
      if f.opcode == op_text
      then if is_some c.fragmented_opcode
        then close protocol_error (codes "a message began before the last one finished") c
        else gather f.payload f.final (record c { fragmented_opcode = some op_text })
      else if is_some c.fragmented_opcode
      then gather f.payload f.final c
      else close protocol_error (codes "a continuation arrived with nothing to continue") c

  unfoldable pub handle : Frame → WebSocketConnection → WebSocketConnection
  handle f c =
      if f.opcode == op_ping
      then write op_pong f.payload c
      else if f.opcode == op_pong
      then c
      else if f.opcode == op_close
      then end_socket (finish (words (codes "the client closed the session")) c)
      else if f.opcode == op_binary
      then close unsupported_data (codes "this protocol is text") c
      else if f.opcode == op_text || f.opcode == op_continuation
      then collect f c
      else close protocol_error
          (codes "opcode " ++ (decimal f.opcode ++ codes " is not one this server speaks")) c

  -- `none` is no outcome of the program: the rounds that the loop was given were used up.
  unfoldable pub drain : ℕ → WebSocketConnection → Option WebSocketConnection
  drain zero c = none
  drain (suc rounds) c =
      if c.ended
      then some c
      else elim (read_frame c.options.maximum_message_bytes c.fragment_bytes c.pending) [
        | incomplete ↦ some c
        | breach code reason ↦ some (close code reason c)
        | frame f rest ↦ drain rounds (handle f (record c { pending = rest }))
      ]

  -- A frame takes six bytes at least, so a round for each byte that is held and one more are enough.
  unfoldable pub on_data : ℕ → Bytes → WebSocketConnection → Option WebSocketConnection
  on_data now chunk c =
      let held = c.pending ++ chunk in
      if c.ended
      then some c
      else drain (suc (length held)) (record c { last_heard = now; pending = held })

-- The heartbeat, and the two ends of the socket.
unfoldable pub on_heartbeat : ℕ → WebSocketConnection → WebSocketConnection
on_heartbeat now c =
    if not c.heartbeat
    then c
    else if ltb (c.options.heartbeat_ms * 2) (now - c.last_heard)
    then close going_away (codes "no answer") c
    else write op_ping [] c

unfoldable pub on_error : WebSocketConnection → WebSocketConnection
on_error c = finish (words (codes "the connection failed")) c

unfoldable pub on_closed : WebSocketConnection → WebSocketConnection
on_closed c = finish (words (codes "the connection closed")) c

-- The state in which the constructor leaves a connection. Bytes that came with the request are the
-- first chunk that arrives.
unfoldable pub connected : WebSocketOptions → Duplex → ℕ → WebSocketConnection
connected options socket now = record {
  options = options;
  socket = socket;
  pending = [];
  fragments = [];
  fragment_bytes = 0;
  fragmented_opcode = none;
  heartbeat = true;
  last_heard = now;
  ended = false;
  closing = false;
  calls = [];
}

-- What may happen to a connection: its three listeners, its timer, what its owner does unasked, and
-- what becomes of its socket.
pub data SocketEvent : Type 0 where
  arrives : ℕ → Bytes → SocketEvent
  beats : ℕ → SocketEvent
  fails shuts : SocketEvent
  owner_does : List Reaction → SocketEvent
  socket_is : Duplex → SocketEvent

unfoldable pub step :
    (List WebSocketCall → Bytes → List Reaction)
    → SocketEvent
    → WebSocketConnection
    → Option WebSocketConnection
step owner (arrives now chunk) c = on_data owner now chunk c
step owner (beats now) c = some (on_heartbeat now c)
step owner fails c = some (on_error c)
step owner shuts c = some (on_closed c)
step owner (owner_does rs) c = some (react rs c)
step owner (socket_is s) c = some (record c { socket = s })

unfoldable pub run :
    (List WebSocketCall → Bytes → List Reaction)
    → List SocketEvent
    → WebSocketConnection
    → Option WebSocketConnection
run owner [] c = some c
run owner (e ∷ es) c = elim (step owner e c) [ none ↦ none | some d ↦ run owner es d ]
