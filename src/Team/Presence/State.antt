-- ===== src/Team/Presence/State.antt =====
-- The data of src/team/presence.ts, with the topics and events of protocol/src/index.ts that it
-- publishes. The two callbacks of its constructor are modelled by the list of the calls made on them.
use narra_leaf_team.Common.{
  ℕ, Bool, true, false, Option, none, some, List, [], ◌∷◌, ◌++◌, Text, codes, text_eq,
}
use narra_leaf_team.Data.Map
use narra_leaf_team.Data.Map.{Map}
use narra_leaf_team.Data.TextSet.{TextSet}

-- `project:<id>/clients`, `project:<id>/live` and `live:<id>`.
unfoldable pub project_clients_topic : Text → Text
project_clients_topic project_id = codes "project:" ++ (project_id ++ codes "/clients")

unfoldable pub project_live_topic : Text → Text
project_live_topic project_id = codes "project:" ++ (project_id ++ codes "/live")

unfoldable pub live_topic : Text → Text
live_topic session_id = codes "live:" ++ session_id

pub record TeamClientInstance : Type 0 where
  pub id : Text
  pub account : Text
  pub label : Text
  pub agent : Text
  pub project : Option Text
  pub revision : Option Text
  pub since : ℕ

pub record InstanceAnnouncement : Type 0 where
  pub id : Text
  pub label : Text
  pub agent : Text
  pub project : Option Text
  pub revision : Option Text

pub record InstanceEntry : Type 0 where
  pub connection : Text
  pub instance_ : TeamClientInstance

-- The rule `open` is a reserved word here.
pub data TeamLiveJoinRule : Type 0 where
  open_to_all code_only request_only : TeamLiveJoinRule

pub record TeamLiveMember : Type 0 where
  pub instance_ : Text
  pub account : Text
  pub label : Text
  pub joined_at : ℕ

pub record LiveEntry : Type 0 where
  pub id : Text
  pub project : Text
  pub revision : Text
  pub story : Text
  pub title : Option Text
  pub opened_by : Text
  pub opened_by_instance : Text
  pub opened_at : ℕ
  pub members : Map TeamLiveMember
  pub rule : TeamLiveJoinRule
  pub requests : Map TeamLiveMember
  pub code : Text

-- What a room looks like from outside: no code and no requests.
pub record TeamLiveSession : Type 0 where
  pub id : Text
  pub project : Text
  pub revision : Text
  pub story : Text
  pub title : Option Text
  pub opened_by : Text
  pub opened_by_instance : Text
  pub opened_at : ℕ
  pub members : List TeamLiveMember
  pub rule : TeamLiveJoinRule

-- What is said inside a room is not read by the server: the payload stands as the bytes of its JSON.
pub record TeamLiveMessage : Type 0 where
  pub session : Text
  pub sender : Text
  pub account : Text
  pub at : ℕ
  pub payload : List ℕ

-- The events of the clients topic, of the live topic, and of a room's own topic.
pub data Event : Type 0 where
  client_here : TeamClientInstance → Event
  client_gone : Text → Event
  live_opened : TeamLiveSession → Event
  live_changed : TeamLiveSession → Event
  live_closed : Text → Event
  live_requested : Text → TeamLiveMember → Event
  live_refused : Text → Text → Event
  said : TeamLiveMessage → Event

-- A call on one of the two callbacks.
pub data Call : Type 0 where
  publish : Text → Event → Call
  forget_topic : Text → Call

pub record TeamPresence : Type 0 where
  pub instances : Map InstanceEntry
  pub by_connection : Map TextSet
  pub sessions : Map LiveEntry
  pub calls : List Call

pub data PresenceError : Type 0 where
  no_such_live_session live_join_needs_asking wrong_live_code too_many_live_sessions : PresenceError
  too_many_instances instance_taken : PresenceError

-- `out_of_draws` is no outcome of the program: the random numbers that the model was given ran out
-- while a code was being drawn.
pub data Result {ℓ} (A : Type ℓ) : Type ℓ where
  ok : A → Result A
  err : PresenceError → Result A
  out_of_draws : Result A

infixl 5 ◌>>=◌
abbrev pub ◌>>=◌ {ℓ κ} : {A : Type ℓ} {B : Type κ} → Result A → (A → Result B) → Result B
ok a >>= f = f a
err e >>= f = err e
out_of_draws >>= f = out_of_draws

abbrev pub live_session_limit : ℕ
live_session_limit = 32

abbrev pub instances_per_connection : ℕ
instances_per_connection = 16

unfoldable pub empty : TeamPresence
empty = record { instances = []; by_connection = []; sessions = []; calls = [] }

abbrev pub emit : Call → TeamPresence → TeamPresence
emit c p = record p { calls = p.calls ++ (c ∷ []) }

-- `a?.project === b`, and `a === b` on optional texts.
abbrev pub is_text : Option Text → Text → Bool
is_text none b = false
is_text (some a) b = text_eq a b

abbrev pub same_text : Option Text → Option Text → Bool
same_text none none = true
same_text none (some b) = false
same_text (some a) none = false
same_text (some a) (some b) = text_eq a b

abbrev pub rule_eq : TeamLiveJoinRule → TeamLiveJoinRule → Bool
rule_eq open_to_all open_to_all = true
rule_eq code_only code_only = true
rule_eq request_only request_only = true
rule_eq _ _ = false

unfoldable pub member_of : TeamClientInstance → ℕ → TeamLiveMember
member_of inst at = record {
  instance_ = inst.id;
  account = inst.account;
  label = inst.label;
  joined_at = at;
}

unfoldable pub view : LiveEntry → TeamLiveSession
view session = record {
  id = session.id;
  project = session.project;
  revision = session.revision;
  story = session.story;
  title = session.title;
  opened_by = session.opened_by;
  opened_by_instance = session.opened_by_instance;
  opened_at = session.opened_at;
  members = Map.values session.members;
  rule = session.rule;
}
