-- ===== src/Team/Tests.antt =====
-- The coordination plane at concrete inputs.
use narra_leaf_team.Common.{
  map, ℕ, zero, suc, ◌+◌, ◌<◌, ◌≤◌, ◌≡◌, ◌≢◌, ◌⊎◌, refl, Bool, true, false, none, some, List, [],
  ◌∷◌, ◌++◌, inl, inr, arith, Text, codes, text_eq, length,
}
use narra_leaf_team.Data.Map
use narra_leaf_team.Data.Map.{Map}
use narra_leaf_team.Data.TextSet
use narra_leaf_team.Team.Hub
use narra_leaf_team.Team.Hub.{HubStep, Publishing, deliver, publishes, advances, removes}
use narra_leaf_team.Team.Topics.{judge_topic, allowed}
use narra_leaf_team.Team.Topics.Judgement.{judge_topic_lem}
use narra_leaf_team.Team.WebSocket.{WebSocketConnection, WebSocketOptions, Duplex}
use narra_leaf_team.Team.WebSocket.Frames
use narra_leaf_team.Team.WebSocket.Frames.{SocketEvent, arrives, beats, shuts}
use narra_leaf_team.Team.WebSocket.Bounds.{IsSound}
use narra_leaf_team.Team.WebSocket.Draining.{run-IsSound}
use narra_leaf_team.Team.Hub.Sequence.{sequence_of-run, published, forgotten}
use narra_leaf_team.Team.Hub.Rounds.{publish_comes_back}
use narra_leaf_team.Team.Hub.Delivery.{heard-run, heard, all_keep}
use narra_leaf_team.Team.Presence.State.{
  TeamClientInstance, InstanceAnnouncement, InstanceEntry, publish, said, live_refused,
  project_live_topic, project_clients_topic, live_topic, wrong_live_code, open_to_all, code_only,
  TeamLiveSession, TeamLiveMember, LiveEntry, TeamPresence, ok, err, empty, view, member_of,
}
use narra_leaf_team.Team.Presence.Rooms
use narra_leaf_team.Team.Presence.Rooms.{
  OpenInput, is_member, join, set_rule, answer, close, request, taken_codes, mint_code, open_room,
  count_open, opened_entry,
}
use narra_leaf_team.Team.Presence.Instances.{
  announce, announced, moved, tell_gone, tell_here, held_by, find_on, instance_on, drop_connection,
  drop_ids, retire, clear_rooms, clear_room, let_go,
}
use narra_leaf_team.Team.Presence.Codes.{Drawn, mint_code_total, open_room_cases}
use narra_leaf_team.Team.Live
use narra_leaf_team.Team.Live.{
  live_close, Reply, done, live_open, live_join, live_say, clients_announce,
}
use narra_leaf_team.Team.Live.Access.{
  verdict, join_lem, closed, IsOpener, Managed-IsOpener, live_say_lem, drop_connection_leaves,
}
use narra_leaf_team.Team.Live.Waiting.{refused_member, joined}
use narra_leaf_team.Team.Presence.Closing.{drop_connection-instances}
use narra_leaf_team.Team.Presence.Leaving.{instance_on_lem}
use narra_leaf_team.Team.Presence.Changes.{SameInstances}
use narra_leaf_team.Team.Live.Validity.{IsValid}
use narra_leaf_team.Team.Live.Histories.{
  Step, announces, opens, joins, Reach, begins, next, Step-IsValid, Reach-IsValid,
}

abbrev any_project : Text → Bool
any_project _ = true

abbrev alice_announces : InstanceAnnouncement
alice_announces = record {
  id = codes "i1";
  label = codes "laptop";
  agent = codes "editor";
  project = some (codes "p");
  revision = none;
}

abbrev bob_announces : InstanceAnnouncement
bob_announces = record alice_announces { id = codes "i2"; label = codes "desk" }

abbrev input : OpenInput
input = record {
  project = codes "p";
  revision = codes "r";
  story = codes "s";
  title = none;
  rule = some code_only;
}

-- What a call leaves, and what it answers.
abbrev left {ℓ} : {A : Type ℓ} → Reply A → TeamPresence
left (done a p) = p
left _ = empty

abbrev value {ℓ} : {A : Type ℓ} → A → Reply A → A
value d (done a p) = a
value d _ = d

abbrev alice : TeamClientInstance
alice = record {
  id = codes "i1";
  account = codes "alice";
  label = codes "laptop";
  agent = codes "editor";
  project = some (codes "p");
  revision = none;
  since = 1;
}

abbrev alice_calls : Reply TeamClientInstance
alice_calls = clients_announce any_project 1 (codes "c1") (codes "alice") alice_announces empty

abbrev with_alice : TeamPresence
with_alice = left alice_calls

alice-Step : Step any_project empty with_alice
unfolding clients_announce announce empty Map.get Map.set TextSet.has TextSet.add announced moved
    tell_gone tell_here held_by text_eq
alice-Step = announces 1 (codes "c1") (codes "alice") alice_announces alice refl

abbrev room : LiveEntry
room = record {
  id = codes "u";
  project = codes "p";
  revision = codes "r";
  story = codes "s";
  title = none;
  opened_by = codes "alice";
  opened_by_instance = codes "i1";
  opened_at = 2;
  members =
      (
        codes "i1",
        record {
          instance_ = codes "i1";
          account = codes "alice";
          label = codes "laptop";
          joined_at = 2;
        },
      )
      ∷ [];
  rule = code_only;
  requests = [];
  code = codes "0007";
}

abbrev open_call : Reply (TeamLiveSession × Text)
open_call = live_open any_project 2 (codes "u") (7 ∷ []) (codes "c1") input with_alice

abbrev with_room : TeamPresence
with_room = left open_call

alice_opens : Step any_project with_alice with_room
unfolding live_open Live.calling_instance find_on instance_on open_room mint_code Rooms.draw_code
    Rooms.four_digits taken_codes opened_entry count_open view member_of clients_announce announce
    empty Map.get Map.set TextSet.has TextSet.add announced moved tell_gone tell_here held_by
    text_eq
alice_opens = opens 2 (codes "u") (7 ∷ []) (codes "c1") input (view room, codes "0007") refl refl

abbrev bob : TeamClientInstance
bob = record alice { id = codes "i2"; account = codes "bob"; label = codes "desk"; since = 3 }

abbrev bob_calls : Reply TeamClientInstance
bob_calls = clients_announce any_project 3 (codes "c2") (codes "bob") bob_announces with_room

abbrev with_bob : TeamPresence
with_bob = left bob_calls

abbrev bob_joins_call : Reply TeamLiveSession
bob_joins_call = live_join 4 (codes "c2") (codes "u") (some (codes "0007")) with_bob

abbrev together : TeamPresence
together = left bob_joins_call

abbrev bob_member : TeamLiveMember
bob_member = record {
  instance_ = codes "i2";
  account = codes "bob";
  label = codes "desk";
  joined_at = 4;
}

abbrev shared_room : LiveEntry
shared_room = record room { members = room.members ++ ((codes "i2", bob_member) ∷ []) }

bob-Step : Step any_project with_room with_bob
unfolding live_open Live.calling_instance find_on instance_on open_room mint_code Rooms.draw_code
    Rooms.four_digits taken_codes opened_entry count_open view member_of clients_announce announce
    empty Map.get Map.set TextSet.has TextSet.add announced moved tell_gone tell_here held_by
    text_eq
bob-Step = announces 3 (codes "c2") (codes "bob") bob_announces bob refl

bob_joins : Step any_project with_bob together
unfolding live_open Live.calling_instance find_on instance_on open_room mint_code Rooms.draw_code
    Rooms.four_digits taken_codes opened_entry count_open view member_of clients_announce announce
    empty Map.get Map.set Map.has TextSet.has TextSet.add announced moved tell_gone tell_here
    held_by text_eq live_join Live.by_code Live.join_named Live.room Rooms.live_session
    Rooms.live_by_code Rooms.find_code join Rooms.announce_change
bob_joins = joins 4 (codes "c2") (codes "u") (some (codes "0007")) (view shared_room) refl

history : Reach any_project empty together
history = next (next (next (next begins alice-Step) alice_opens) bob-Step) bob_joins

Reach-IsValid_example : IsValid together
Reach-IsValid_example = Reach-IsValid any_project history

Step-IsValid_example : IsValid with_alice
Step-IsValid_example =
    Step-IsValid any_project empty with_alice alice-Step (Reach-IsValid any_project begins)

shared_there : Map.get (codes "u") together.sessions ≡ some shared_room
unfolding live_open Live.calling_instance find_on instance_on open_room mint_code Rooms.draw_code
    Rooms.four_digits taken_codes opened_entry count_open view member_of clients_announce announce
    empty Map.get Map.set Map.has Map.delete TextSet.has TextSet.add TextSet.delete announced moved
    tell_gone tell_here held_by text_eq live_join Live.by_code Live.join_named Live.room
    Rooms.live_session Rooms.live_by_code Rooms.find_code join Rooms.announce_change drop_connection
    drop_ids retire clear_rooms clear_room Rooms.part Rooms.end Rooms.is_member Rooms.say
    Live.payload_of live_say let_go
shared_there = refl

room_there : Map.get (codes "u") with_bob.sessions ≡ some room
unfolding live_open Live.calling_instance find_on instance_on open_room mint_code Rooms.draw_code
    Rooms.four_digits taken_codes opened_entry count_open view member_of clients_announce announce
    empty Map.get Map.set Map.has Map.delete TextSet.has TextSet.add TextSet.delete announced moved
    tell_gone tell_here held_by text_eq live_join Live.by_code Live.join_named Live.room
    Rooms.live_session Rooms.live_by_code Rooms.find_code join Rooms.announce_change drop_connection
    drop_ids retire clear_rooms clear_room Rooms.part Rooms.end Rooms.is_member Rooms.say
    Live.payload_of live_say let_go
room_there = refl

join_lem_example : join 4 bob (codes "u") (some (codes "1234")) with_bob ≡ err wrong_live_code
unfolding Map.has Map.get text_eq verdict
join_lem_example =
    let judged = join_lem 4 bob (codes "u") (some (codes "1234")) with_bob room room_there in
    ground (arith, judged)

bob_called : instance_on (codes "c2") (codes "p") together ≡ some bob
unfolding live_open Live.calling_instance find_on instance_on open_room mint_code Rooms.draw_code
    Rooms.four_digits taken_codes opened_entry count_open view member_of clients_announce announce
    empty Map.get Map.set Map.has Map.delete TextSet.has TextSet.add TextSet.delete announced moved
    tell_gone tell_here held_by text_eq live_join Live.by_code Live.join_named Live.room
    Rooms.live_session Rooms.live_by_code Rooms.find_code join Rooms.announce_change drop_connection
    drop_ids retire clear_rooms clear_room Rooms.part Rooms.end Rooms.is_member Rooms.say
    Live.payload_of live_say let_go
bob_called = refl

abbrev close_call : Reply (Unit {0})
close_call = live_close (codes "c1") (codes "u") together

Managed-IsOpener_example : (i : TeamClientInstance) × IsOpener (codes "c1") shared_room together i
unfolding live_open Live.calling_instance find_on instance_on open_room mint_code Rooms.draw_code
    Rooms.four_digits taken_codes opened_entry count_open view member_of clients_announce announce
    empty Map.get Map.set Map.has Map.delete TextSet.has TextSet.add TextSet.delete announced moved
    tell_gone tell_here held_by text_eq live_join Live.by_code Live.join_named Live.room
    Rooms.live_session Rooms.live_by_code Rooms.find_code join Rooms.announce_change drop_connection
    drop_ids retire clear_rooms clear_room Rooms.part Rooms.end Rooms.is_member Rooms.say
    Live.payload_of live_say let_go Rooms.close live_close
Managed-IsOpener_example =
    Managed-IsOpener (codes "c1") (codes "u") together (left close_call) shared_room
      (Reach-IsValid any_project history) shared_there (closed refl)

abbrev say_call : Reply (Unit {0})
say_call = live_say 5 (codes "c2") (codes "u") (some (1 ∷ [])) together

live_say_lem_example :
    (i : TeamClientInstance) × (m : TeamLiveMember) × (encoded : List ℕ) × (Map.get i.id
        shared_room.members
      ≡ some m)
    × (m.account ≡ i.account)
    × (some (1 ∷ []) ≡ some encoded)
    × (length encoded ≤ 16384)
    × ((left say_call).calls
        ≡ together.calls
          ++ (publish (live_topic (codes "u")) (
                said (record {
                  session = codes "u";
                  sender = i.id;
                  account = m.account;
                  at = 5;
                  payload = encoded;
                }))
              ∷ []))
unfolding live_open Live.calling_instance find_on instance_on open_room mint_code Rooms.draw_code
    Rooms.four_digits taken_codes opened_entry count_open view member_of clients_announce announce
    empty Map.get Map.set Map.has Map.delete TextSet.has TextSet.add TextSet.delete announced moved
    tell_gone tell_here held_by text_eq live_join Live.by_code Live.join_named Live.room
    Rooms.live_session Rooms.live_by_code Rooms.find_code join Rooms.announce_change drop_connection
    drop_ids retire clear_rooms clear_room Rooms.part Rooms.end Rooms.is_member Rooms.say
    Live.payload_of live_say let_go
live_say_lem_example =
    live_say_lem 5 (codes "c2") (codes "u") (some (1 ∷ [])) together (left say_call) shared_room
      (Reach-IsValid any_project history) shared_there refl

drop_connection_leaves_example :
    (e : InstanceEntry) × (Map.get (codes "i1") (drop_connection (codes "c2") together).instances
      ≡ some e)
    × (Map.get (codes "i1") together.instances ≡ some e)
    × (e.connection ≢ codes "c2")
unfolding live_open Live.calling_instance find_on instance_on open_room mint_code Rooms.draw_code
    Rooms.four_digits taken_codes opened_entry count_open view member_of clients_announce announce
    empty Map.get Map.set Map.has Map.delete TextSet.has TextSet.add TextSet.delete announced moved
    tell_gone tell_here held_by text_eq live_join Live.by_code Live.join_named Live.room
    Rooms.live_session Rooms.live_by_code Rooms.find_code join Rooms.announce_change drop_connection
    drop_ids retire clear_rooms clear_room Rooms.part Rooms.end Rooms.is_member Rooms.say
    Live.payload_of live_say let_go
drop_connection_leaves_example =
    drop_connection_leaves (codes "c2") together (Reach-IsValid any_project history) (codes "u")
      room refl (codes "i1") (member_of alice 2) refl

drop_connection-instances_example :
    Map.get (codes "i2") (drop_connection (codes "c2") together).instances ≡ none
unfolding live_open Live.calling_instance find_on instance_on open_room mint_code Rooms.draw_code
    Rooms.four_digits taken_codes opened_entry count_open view member_of clients_announce announce
    empty Map.get Map.set Map.has Map.delete TextSet.has TextSet.add TextSet.delete announced moved
    tell_gone tell_here held_by text_eq live_join Live.by_code Live.join_named Live.room
    Rooms.live_session Rooms.live_by_code Rooms.find_code join Rooms.announce_change drop_connection
    drop_ids retire clear_rooms clear_room Rooms.part Rooms.end Rooms.is_member Rooms.say
    Live.payload_of live_say let_go
drop_connection-instances_example =
    drop_connection-instances (codes "c2") (codes "i2") together
      (Reach-IsValid any_project history).holds (Reach-IsValid any_project history).in_order

instance_on_lem_example :
    (e : InstanceEntry) × (Map.get (codes "i2") together.instances ≡ some e)
    × (e.instance_ ≡ bob)
    × (e.connection ≡ codes "c2")
    × (some (codes "p") ≡ some (codes "p"))
instance_on_lem_example =
    instance_on_lem (codes "c2") (codes "p") together bob (Reach-IsValid any_project history).holds
      bob_called

open_room_cases_example :
    SameInstances with_alice with_room
    × (with_room.sessions
        ≡ Map.set (codes "u") (opened_entry 2 (codes "u") (codes "0007") alice input) [])
    × (TextSet.has (codes "0007") [] ≡ false)
    × (0 < 32)
unfolding live_open Live.calling_instance find_on instance_on open_room mint_code Rooms.draw_code
    Rooms.four_digits taken_codes opened_entry count_open view member_of clients_announce announce
    empty Map.get Map.set Map.has Map.delete TextSet.has TextSet.add TextSet.delete announced moved
    tell_gone tell_here held_by text_eq live_join Live.by_code Live.join_named Live.room
    Rooms.live_session Rooms.live_by_code Rooms.find_code join Rooms.announce_change drop_connection
    drop_ids retire clear_rooms clear_room Rooms.part Rooms.end Rooms.is_member Rooms.say
    Live.payload_of live_say let_go
open_room_cases_example =
    open_room_cases 2 (codes "u") (7 ∷ []) alice input with_alice {v = view room} {c = codes "0007"}
      {q = with_room} refl

-- The numbers below a bound, downwards.
abbrev below : ℕ → List ℕ
below zero = []
below (suc n) = n ∷ below n

below-Drawn : (m n : ℕ) → n < m → Drawn n (below m)
below-Drawn zero n h = absurd (omega arith)
below-Drawn (suc m) n h =
    let other : (m ≡ n) ⊎ (n < m) = ground arith in
    elim other [ inl e ↦ inl e | inr l ↦ inr (below-Drawn m n l) ]

mint_code_total_example :
    (c : Text) × (mint_code (below 10000) empty ≡ ok c)
    × (TextSet.has c (taken_codes (Map.values empty.sessions)) ≡ false)
unfolding empty taken_codes
mint_code_total_example = mint_code_total empty (below 10000) (omega arith) (below-Drawn 10000)

abbrev one_open : Publishing ℕ
one_open = record {
  hub = record { sessions = codes "s" ∷ codes "s2" ∷ []; sequences = [] };
  loops = [];
}

abbrev rounds : List Bool
rounds = true ∷ false ∷ true ∷ []

-- The first delivery closes the session that it is for, which publishes on the same topic.
abbrev events : List (HubStep ℕ)
events =
    publishes (codes "t") 10
    ∷ advances true
    ∷ removes (codes "s")
    ∷ publishes (codes "t") 12
    ∷ advances true
    ∷ advances true
    ∷ advances true
    ∷ advances true
    ∷ []

sequence_of-run_example : Hub.sequence_of (Hub.run one_open events).0.hub (codes "t") ≡ 0 + 2
unfolding published forgotten Hub.sequence_of Map.get text_eq
sequence_of-run_example = sequence_of-run (codes "t") one_open events refl

-- Who joined behind the session that was closed hears the second event before the first.
overtaken :
    (Hub.run one_open events).1
    ≡ deliver (codes "s") (codes "t") 1 10
      ∷ deliver (codes "s2") (codes "t") 2 12
      ∷ deliver (codes "s2") (codes "t") 1 10
      ∷ []
unfolding Hub.run TextSet.has TextSet.add TextSet.delete Map.set Map.get text_eq Hub.sequence_of
overtaken = refl

heard-run_example : heard (codes "s2") (codes "t") 1 (Hub.run one_open events).1 ≡ 1
unfolding Hub.run all_keep Hub.sequence_of TextSet.has TextSet.add TextSet.delete Map.set Map.get
    text_eq
heard-run_example = heard-run (codes "s2") (codes "t") 1 one_open events refl refl refl refl

publish_comes_back_example :
    ((Hub.run one_open (publishes (codes "u") 7 ∷ map advances rounds)).0.loops ≡ [])
    × ((Hub.run one_open (publishes (codes "u") 7 ∷ map advances rounds)).0.hub.sessions
        ≡ codes "s" ∷ codes "s2" ∷ [])
    × (Hub.sequence_of
          (Hub.run one_open (publishes (codes "u") 7 ∷ map advances rounds)).0.hub
          (codes "u")
        ≡ 0 + 1)
unfolding Hub.sequence_of Map.get TextSet.has text_eq
publish_comes_back_example =
    publish_comes_back (codes "u") 7 one_open rounds (refl, (refl, tt)) refl

abbrev asked_room : LiveEntry
asked_room = record room { rule = open_to_all; requests = (codes "i2", bob_member) ∷ [] }

abbrev asking : TeamPresence
asking = record with_bob { sessions = (codes "u", asked_room) ∷ [] }

refused_member_example :
    (q r : TeamPresence) × (join 5 bob (codes "u") none asking
      ≡ ok (view (joined 5 bob asked_room), q))
    × (answer 5 (codes "i1") (codes "u") (codes "i2") false q ≡ ok (true, r))
    × (is_member (codes "u") (codes "i2") r ≡ true)
    × (r.calls
        ≡ q.calls
          ++ (publish (project_live_topic (codes "p")) (live_refused (codes "u") (codes "i2"))
              ∷ []))
unfolding Map.get Map.has text_eq
refused_member_example =
    refused_member 5 bob (codes "u") asking asked_room bob_member refl refl refl refl refl

-- A close frame from a client, masked, in two chunks with a beat of the heart between them.
abbrev limits : WebSocketOptions
limits = record {
  maximum_message_bytes = 1024;
  maximum_buffered_bytes = 4096;
  heartbeat_ms = 30000;
}

abbrev open_socket : Duplex
open_socket = record { destroyed = false; writable_ended = false; writable_length = 0 }

abbrev two_chunks : List SocketEvent
two_chunks = arrives 1 (0x88 ∷ 0x80 ∷ []) ∷ beats 2 ∷ arrives 3 (1 ∷ 2 ∷ 3 ∷ 4 ∷ []) ∷ shuts ∷ []

run-IsSound_example :
    (d : WebSocketConnection) × (Frames.run
        (λ calls text. [])
        two_chunks
        (Frames.connected limits open_socket 0)
      ≡ some d)
    × IsSound d
    × (length d.pending < 14 + (1024 + 125))
run-IsSound_example = run-IsSound (λ calls text. []) limits open_socket 0 two_chunks

abbrev one_room : TeamPresence
one_room = record {
  instances = [];
  by_connection = [];
  sessions = (codes "u", room) ∷ [];
  calls = [];
}

judge_topic_lem_example :
    (judge_topic false any_project (some one_room) (live_topic (codes "u")) ≡ allowed)
    × (judge_topic false any_project (some one_room) (project_clients_topic (codes "p")) ≡ allowed)
    × (judge_topic false any_project (some one_room) (project_live_topic (codes "p")) ≡ allowed)
unfolding Rooms.live_session Map.get text_eq
judge_topic_lem_example =
    judge_topic_lem false any_project one_room (codes "u") (codes "p") (λ e. ground (arith, e), tt)
