-- ===== src/Team/Presence/Instances.antt =====
-- The instances of src/team/presence.ts: announcing, withdrawing, and a connection closing.
use narra_leaf_team.Common.{
  ℕ, Bool, false, not, ◌&&◌, Option, none, some, List, [], ◌∷◌, leb, Text, text_eq, if◌then◌else◌,
}
use narra_leaf_team.Data.Map
use narra_leaf_team.Data.Map.{Map}
use narra_leaf_team.Data.TextSet
use narra_leaf_team.Data.TextSet.{TextSet}
use narra_leaf_team.Team.Presence.State.{
  TeamClientInstance, InstanceAnnouncement, InstanceEntry, client_here, client_gone, publish,
  TeamPresence, too_many_instances, instance_taken, Result, ok, err, instances_per_connection, emit,
  is_text, same_text, project_clients_topic,
}
use narra_leaf_team.Team.Presence.Rooms.{put_session, part}
use mathlib.Core.Option

unfoldable pub held_by : Text → TeamPresence → TextSet
held_by connection p = Option.get_or (Map.get connection p.by_connection) []

-- `byConnection.get(connection)?.delete(id)`.
unfoldable pub let_go : Text → Text → Map TextSet → Map TextSet
let_go connection id m = elim (Map.get connection m) [
  | none ↦ m
  | some held ↦ Map.set connection (TextSet.delete id held) m
]

abbrev pub is_taken : Option InstanceEntry → Text → Bool
is_taken none account = false
is_taken (some previous) account = not (text_eq previous.instance_.account account)

-- The connection that held the id, where it is another one, lets it go.
unfoldable pub moved : Option InstanceEntry → Text → Text → Map TextSet → Map TextSet
unfolding let_go
moved none connection id m = m
moved (some previous) connection id m =
    if text_eq previous.connection connection then m else let_go previous.connection id m

abbrev since_of : Option InstanceEntry → Text → ℕ → ℕ
since_of none connection now = now
since_of (some previous) connection now =
    if text_eq previous.connection connection then previous.instance_.since else now

unfoldable pub announced :
    ℕ → Text → Text → InstanceAnnouncement → Option InstanceEntry → TeamClientInstance
announced now connection account what previous = record {
  id = what.id;
  account = account;
  label = what.label;
  agent = what.agent;
  project = what.project;
  revision = what.revision;
  since = since_of previous connection now;
}

abbrev project_of : Option InstanceEntry → Option Text
project_of none = none
project_of (some entry) = entry.instance_.project

-- The two events at the end of `announce`.
unfoldable pub tell_gone : Option Text → Option Text → Text → TeamPresence → TeamPresence
tell_gone none after id p = p
tell_gone (some before) after id p =
    if same_text (some before) after
    then p
    else emit (publish (project_clients_topic before) (client_gone id)) p

unfoldable pub tell_here : TeamClientInstance → TeamPresence → TeamPresence
tell_here inst p = elim inst.project [
  | none ↦ p
  | some project ↦ emit (publish (project_clients_topic project) (client_here inst)) p
]

unfoldable pub announce :
    ℕ
    → Text
    → Text
    → InstanceAnnouncement
    → TeamPresence
    → Result (TeamClientInstance × TeamPresence)
unfolding announced moved tell_gone tell_here held_by
announce now connection account what p =
    let previous = Map.get what.id p.instances in
    let held = held_by connection p in
    let inst = announced now connection account what previous in
    let entry : InstanceEntry = record { connection = connection; instance_ = inst } in
    let p' = record p {
      instances = Map.set what.id entry p.instances;
      by_connection =
          Map.set connection (TextSet.add what.id held)
            (moved previous connection what.id p.by_connection);
    } in
    if is_taken previous account
    then err instance_taken
    else if not (TextSet.has what.id held) && leb instances_per_connection (TextSet.size held)
    then err too_many_instances
    else ok (inst, tell_here inst (tell_gone (project_of previous) inst.project inst.id p'))

-- The loop of `instanceOn` over the ids that one connection holds.
unfoldable pub find_on : Map InstanceEntry → Text → List Text → Option TeamClientInstance
find_on instances project [] = none
find_on instances project (id ∷ ids) =
    let rest = find_on instances project ids in
    elim (Map.get id instances) [
      | none ↦ rest
      | some entry ↦ if is_text entry.instance_.project project then some entry.instance_ else rest
    ]

unfoldable pub instance_on : Text → Text → TeamPresence → Option TeamClientInstance
unfolding find_on held_by
instance_on connection project p = find_on p.instances project (held_by connection p)

unfoldable pub instances_at : Map InstanceEntry → List Text → List TeamClientInstance
instances_at instances [] = []
instances_at instances (id ∷ ids) =
    let rest = instances_at instances ids in
    elim (Map.get id instances) [ none ↦ rest | some entry ↦ entry.instance_ ∷ rest ]

unfoldable pub instances_of : Text → TeamPresence → List TeamClientInstance
unfolding instances_at
instances_of connection p = elim (Map.get connection p.by_connection) [
  | none ↦ []
  | some held ↦ instances_at p.instances held
]

-- One round of the loop of `retire` over the rooms: the request goes, and the member parts.
unfoldable pub clear_room : Text → Text → TeamPresence → TeamPresence
unfolding part
clear_room id room p = elim (Map.get room p.sessions) [
  | none ↦ p
  | some session ↦
      let session' = record session { requests = Map.delete id session.requests } in
      let p' = put_session session' p in
      if Map.has id session.members then part session' id p' else p'
]

unfoldable pub clear_rooms : Text → List Text → TeamPresence → TeamPresence
unfolding clear_room
clear_rooms id [] p = p
clear_rooms id (room ∷ rooms) p = clear_rooms id rooms (clear_room id room p)

unfoldable pub retire : Text → TeamPresence → TeamPresence
unfolding clear_rooms
retire id p = elim (Map.get id p.instances) [
  | none ↦ p
  | some entry ↦
      let p' = record p { instances = Map.delete id p.instances } in
      let p'' = clear_rooms id (Map.keys p'.sessions) p' in
      elim entry.instance_.project [
        | none ↦ p''
        | some project ↦ emit (publish (project_clients_topic project) (client_gone id)) p''
      ]
]

unfoldable pub withdraw : Text → Text → TeamPresence → TeamPresence
unfolding instance_on let_go retire
withdraw connection project p = elim (instance_on connection project p) [
  | none ↦ p
  | some inst ↦
      retire inst.id (record p { by_connection = let_go connection inst.id p.by_connection })
]

-- Everything connected, or everything with one project open.
unfoldable pub clients_of : Option Text → List InstanceEntry → List TeamClientInstance
clients_of project [] = []
clients_of project (e ∷ es) =
    let rest = clients_of project es in
    elim project [
      | none ↦ e.instance_ ∷ rest
      | some q ↦ if is_text e.instance_.project q then e.instance_ ∷ rest else rest
    ]

unfoldable pub clients : Option Text → TeamPresence → List TeamClientInstance
unfolding clients_of
clients project p = clients_of project (Map.values p.instances)

-- The loop of `dropConnection`: only what this connection still holds.
unfoldable pub drop_ids : Text → List Text → TeamPresence → TeamPresence
unfolding retire
drop_ids connection [] p = p
drop_ids connection (id ∷ ids) p = drop_ids connection ids (elim (Map.get id p.instances) [
  | none ↦ p
  | some entry ↦ if text_eq entry.connection connection then retire id p else p
])

unfoldable pub drop_connection : Text → TeamPresence → TeamPresence
unfolding drop_ids held_by
drop_connection connection p =
    drop_ids connection (held_by connection p)
      (record p { by_connection = Map.delete connection p.by_connection })
