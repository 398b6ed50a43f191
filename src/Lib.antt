-- ===== src/Lib.antt =====
-- A model of the NarraLeaf Team server: its coordination plane (src/team), the records
-- attached to a project (src/overlay), its gRPC wire (src/grpc) and the encoding of its certificates
-- (src/tls/der.ts).
--
-- The program. A Studio holds one session with the server. Through it an installation says which
-- project it has open (clients.announce) and opens, joins and leaves live sessions, which are called
-- rooms here. src/team/presence.ts keeps the installations and the rooms in memory; src/team/methods
-- turns the calls of a session into operations on the presence; what changes is published on topics
-- through src/team/hub.ts, which numbers the events of a topic and hands them to the sessions that
-- want it, and a session writes them on its connection (src/team/websocket.ts). src/grpc/protobuf.ts
-- and src/grpc/framing.ts are the wire of the services the server answers to and calls, and
-- src/grpc/messages.ts is what travels on it. src/overlay/store.ts keeps what clients attach to places of
-- a project, in a table of the database.
--
-- The files.
--   Common, Data: shared names, Boolean tests, strings as lists of UTF-16 code units, JavaScript's Map
--     and Set with string keys in insertion order, bytes and bit operations, integers, decimals, and the
--     filter and the order of a query's rows.
--   Team/Hub: TeamHub of src/team/hub.ts (add, remove, sequenceOf, forget, publish, closeAll), with
--     its deliveries running inside the loop of publish; Hub/Sequence and Hub/Delivery are about whole
--     histories of it, Hub/Rounds about one loop.
--   Team/WebSocket: WebSocketConnection of src/team/websocket.ts. WebSocket has what it writes (send,
--     close, write, finish), WebSocket/Frames what it reads (readFrame, handle, collect, drain, the
--     listeners and the timer of the constructor); WebSocket/Bounds, Headers, Handling and Draining are
--     proofs.
--   Team/Presence: TeamPresence of src/team/presence.ts. State has the data and the events of
--     protocol/src/index.ts; Rooms has live, liveSession, isMember, open, mintCode, setRule,
--     liveByCode, join, request, answer, leave, close, say, part, end and announceChange; Instances
--     has announce, instanceOn, instancesOf, withdraw, clients, dropConnection and retire. The other
--     files of the folder are proofs: how a room may change (Evolution, Changes, RoomSteps), what every
--     room keeps (Registry), codes (Codes), leaving and closing (Departure, Leaving, Closing), the two
--     maps in step (Holding).
--   Team/Live: the handlers of src/team/methods/live.ts and src/team/methods/clients.ts, and
--     callingInstance of src/team/methods.ts. Live/Validity has the invariant of the presence,
--     Live/Histories the step relation of the server, Live/Access says who may do
--     what, Live/Waiting what becomes of a request.
--   Team/Session: TeamSession of src/team/session.ts (receive, answer, subscribe, unsubscribe, identify,
--     withdrawManagement, closed, bye and send), each part of a handler a step from a session to a session
--     with the list of what it does; Session/Handlers has the handlers. Session/Keeping and Session/Bounds
--     are about what every handler keeps, Session/Withdrawal about the topics of operators, and
--     Session/Opening about a connection that ends before the constructor is left (src/team/endpoint.ts).
--   Team/Collaboration: judgeCollaboration and withoutCoordination of src/team/collaboration.ts.
--   Team/Topics: judgeTopic of src/team/topics.ts, and Topics/Judgement on its answers.
--   Grpc/Protobuf: MessageWriter, MessageReader and readFields of src/grpc/protobuf.ts.
--   Grpc/Framing: encodeFrame and FrameAssembler of src/grpc/framing.ts.
--   Grpc/Messages: the messages of src/grpc/messages.ts. Messages/Permissions, Tokens and Repositories have
--     the encoders and the handlers of the decoders, and the RoundTrip module of each, and
--     Permissions/Lookup, their proofs;
--     Messages/Decoding and Carrying are lemmas on fields one after the other.
--   Tls/Der: the encoder of src/tls/der.ts. Der/Lengths has a reader of definite lengths, Der/Values and
--     Der/Numbers what it reads of sequences and of unsigned numbers, and Der/Identifiers has the object
--     identifiers.
--   Overlay: the store of src/overlay/store.ts. Overlay has the table and its writes, Overlay/Listing the
--     pages of listOverlay. Overlay/Order, Paging and Paging/Following are about the pages, Overlay/Reading
--     about a client that reads them all, Overlay/Writing and Holding about the writes, and Overlay/Refinement says what
--     the table is to its readers by id.
--
-- Correspondence. State is passed explicitly. The callbacks `publish` and `forgetTopic` of the presence,
-- and `deliver` and `end` of a session of the hub, are modelled by the list of the calls made on them.
-- In the hub a publication is begun in one step and handed to one session in each later one, so that what
-- a delivery sets off comes in between; an operation of the presence is one step, and what its events set
-- off comes behind it.
-- The clock, the random UUID of a room and the numbers that mintCode draws are arguments. A thrown error
-- is a value of a result type. A Buffer is a list of numbers below 256, and the position of a reader is
-- the bytes that are left.
--
-- Bounds and fuel. mintCode draws until a code is free; the model takes the list of the draws, and has
-- `out_of_draws` for a list that ends. The loop of `push` gets a round for each byte it holds and one
-- more, and every message takes five bytes at least. The loop of readFields gets its rounds as an
-- argument, and the theorems about it say how many are enough. The varint writer recurs on the number.
--
-- The loop of the WebSocket's drain gets a round for each byte that is pending and one more, and a frame
-- takes six bytes at least. While a message is handed to the owner of a connection, the owner may send
-- and close; which of these it does is a parameter, given the calls so far and the message. What is
-- queued on the socket grows by what is written, and may become anything between two events.
--
-- A length in DER is read back up to the largest safe integer, past which no buffer of the program goes.
-- A client that follows the cursors of a listing asks for as many pages as its fuel, and the theorem says
-- that one more than the rows of the table are enough. A session's connection takes so many more frames
-- before its backlog is over the limit, a number that may become any other between two events. Of an object
-- identifier with an arc past the largest safe integer, which the program rounds, nothing is said.
--
-- Not modelled: the WebSocket handshake, JSON, the reading of the
-- parameters of a call (requiredText and its like), the registry of projects (a parameter), UTF-8,
-- SQLite apart from the one table of the overlay, a connection that closes in the middle of an operation
-- of the presence because of what that operation publishes, HTTP, TLS, the file system, the command line and the lore
-- library.
pub mod Common
pub mod Data
pub mod Team
pub mod Overlay
pub mod Tls
pub mod Grpc
