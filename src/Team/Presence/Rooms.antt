-- ===== src/Team/Presence/Rooms.antt =====
-- The rooms of src/team/presence.ts. A method that mutates `this` returns the new state; one that
-- throws returns the error, and none of them throws after a mutation.
use narra_leaf_team.Common.{
  ℕ, ◌+◌, ◌/◌, ◌%◌, Bool, true, false, not, ◌&&◌, ◌||◌, Option, none, some, List, [], ◌∷◌, leb,
  ◌==◌, Text, text_eq, if◌then◌else◌,
}
use narra_leaf_team.Data.Map
use narra_leaf_team.Data.Map.{Map}
use narra_leaf_team.Data.TextSet
use narra_leaf_team.Data.TextSet.{TextSet}
use narra_leaf_team.Team.Presence.State.{
  TeamClientInstance, TeamLiveJoinRule, open_to_all, code_only, request_only, TeamLiveMessage,
  LiveEntry, TeamLiveSession, live_opened, live_changed, live_closed, live_requested, live_refused,
  said, publish, forget_topic, TeamPresence, no_such_live_session, live_join_needs_asking,
  wrong_live_code, too_many_live_sessions, Result, ok, err, out_of_draws, ◌>>=◌, live_session_limit,
  emit, is_text, rule_eq, member_of, view, project_live_topic, live_topic,
}
use mathlib.Core.Option

-- A mutation of the fields of a room is a write of the room under its id.
abbrev pub put_session : LiveEntry → TeamPresence → TeamPresence
put_session session p = record p { sessions = Map.set session.id session p.sessions }

unfoldable pub announce_change : LiveEntry → TeamPresence → TeamPresence
announce_change session p =
    emit (publish (project_live_topic session.project) (live_changed (view session))) p

unfoldable pub end : LiveEntry → TeamPresence → TeamPresence
end session p = emit (forget_topic (live_topic session.id)) (
    emit (publish (project_live_topic session.project) (live_closed session.id))
      (record p { sessions = Map.delete session.id p.sessions }))

unfoldable pub part : LiveEntry → Text → TeamPresence → TeamPresence
unfolding end announce_change
part session instance_id p =
    let session' = record session { members = Map.delete instance_id session.members } in
    let p' = put_session session' p in
    if not (Map.has instance_id session.members)
    then p
    else if Map.size session'.members == 0 || text_eq session.opened_by_instance instance_id
    then end session' p'
    else announce_change session' p'

-- The rooms of one project that one instance may see.
unfoldable pub is_listed : Text → Option Text → LiveEntry → Bool
is_listed project for_instance session =
    text_eq session.project project
    && (not (rule_eq session.rule code_only)
        || elim for_instance [ none ↦ false | some i ↦ Map.has i session.members ])

unfoldable pub filter_views : (LiveEntry → Bool) → List LiveEntry → List TeamLiveSession
filter_views test [] = []
filter_views test (s ∷ ss) =
    let rest = filter_views test ss in if test s then view s ∷ rest else rest

unfoldable pub live : Text → Option Text → TeamPresence → List TeamLiveSession
unfolding filter_views is_listed
live project for_instance p = filter_views (is_listed project for_instance) (Map.values p.sessions)

unfoldable pub live_session : Text → TeamPresence → Option TeamLiveSession
live_session id p = Option.map view (Map.get id p.sessions)

unfoldable pub is_member : Text → Text → TeamPresence → Bool
is_member id inst p = elim (Map.get id p.sessions) [
  | none ↦ false
  | some session ↦ Map.has inst session.members
]

-- How many rooms of the list are one project's.
unfoldable pub count_open : Text → List LiveEntry → ℕ
count_open project [] = 0
count_open project (s ∷ ss) = (if text_eq s.project project then 1 else 0) + count_open project ss

-- `String(n).padStart(4, "0")` for n below 10,000.
unfoldable pub four_digits : ℕ → Text
four_digits n =
    (b'0' + n / 1000 % 10) ∷ (b'0' + n / 100 % 10) ∷ (b'0' + n / 10 % 10) ∷ (b'0' + n % 10) ∷ []

unfoldable pub taken_codes : List LiveEntry → TextSet
taken_codes [] = []
taken_codes (s ∷ ss) = TextSet.add s.code (taken_codes ss)

-- The `for (;;)` loop over the numbers that `randomInt(0, 10_000)` answers.
unfoldable pub draw_code : TextSet → List ℕ → Result Text
unfolding four_digits
draw_code taken [] = out_of_draws
draw_code taken (n ∷ draws) =
    let rest = draw_code taken draws in
    let code = four_digits n in if TextSet.has code taken then rest else ok code

unfoldable pub mint_code : List ℕ → TeamPresence → Result Text
unfolding draw_code taken_codes
mint_code draws p =
    let taken = taken_codes (Map.values p.sessions) in
    if leb 10000 (TextSet.size taken) then err too_many_live_sessions else draw_code taken draws

pub record OpenInput : Type 0 where
  pub project : Text
  pub revision : Text
  pub story : Text
  pub title : Option Text
  pub rule : Option TeamLiveJoinRule

unfoldable pub opened_entry : ℕ → Text → Text → TeamClientInstance → OpenInput → LiveEntry
opened_entry now uuid code inst input = record {
  id = uuid;
  project = input.project;
  revision = input.revision;
  story = input.story;
  title = input.title;
  opened_by = inst.account;
  opened_by_instance = inst.id;
  opened_at = now;
  members = (inst.id, member_of inst now) ∷ [];
  rule = Option.get_or input.rule open_to_all;
  requests = [];
  code = code;
}

-- `Date.now()`, `randomUUID()` and the random numbers come in as arguments.
unfoldable pub open_room :
    ℕ
    → Text
    → List ℕ
    → TeamClientInstance
    → OpenInput
    → TeamPresence
    → Result (TeamLiveSession × Text × TeamPresence)
unfolding mint_code opened_entry count_open
open_room now uuid draws inst input p =
    if leb live_session_limit (count_open input.project (Map.values p.sessions))
    then err too_many_live_sessions
    else do
      code ← mint_code draws p
      let session = opened_entry now uuid code inst input
      ok (
        view session,
        code,
        emit (publish (project_live_topic session.project) (live_opened (view session)))
            (put_session session p),
      )

unfoldable pub set_rule :
    Text → Text → TeamLiveJoinRule → TeamPresence → Result (Bool × TeamPresence)
unfolding announce_change
set_rule instance_id id rule p = elim (Map.get id p.sessions) [
  | none ↦ err no_such_live_session
  | some session ↦
      let session' = record session { rule = rule } in
      if not (text_eq session.opened_by_instance instance_id)
      then ok (false, p)
      else if not (rule_eq session.rule rule)
      then ok (true, announce_change session' (put_session session' p))
      else ok (true, p)
]

unfoldable pub find_code : Text → List LiveEntry → Option LiveEntry
find_code code [] = none
find_code code (s ∷ ss) = if text_eq s.code code then some s else find_code code ss

unfoldable pub live_by_code : Text → TeamPresence → Option TeamLiveSession
unfolding find_code
live_by_code code p = Option.map view (find_code code (Map.values p.sessions))

-- Joining a room that one is in is the room itself, whatever its rule.
unfoldable pub join :
    ℕ
    → TeamClientInstance
    → Text
    → Option Text
    → TeamPresence
    → Result (TeamLiveSession × TeamPresence)
unfolding announce_change member_of
join now inst id code p = elim (Map.get id p.sessions) [
  | none ↦ err no_such_live_session
  | some session ↦
      let session' = record session {
        members = Map.set inst.id (member_of inst now) session.members;
      } in
      if Map.has inst.id session.members
      then ok (view session, p)
      else if rule_eq session.rule code_only && not (is_text code session.code)
      then err wrong_live_code
      else if rule_eq session.rule request_only
      then err live_join_needs_asking
      else ok (view session', announce_change session' (put_session session' p))
]

unfoldable pub request :
    ℕ → TeamClientInstance → Text → TeamPresence → Result (TeamLiveSession × TeamPresence)
unfolding member_of
request now inst id p = elim (Map.get id p.sessions) [
  | none ↦ err no_such_live_session
  | some session ↦
      let member = member_of inst now in
      let session' = record session { requests = Map.set inst.id member session.requests } in
      if not (Map.has inst.id session.members) && not (Map.has inst.id session.requests)
      then ok (
        view session',
        emit (publish (project_live_topic session.project) (live_requested session.id member))
            (put_session session' p),
      )
      else ok (view session, p)
]

unfoldable pub answer : ℕ → Text → Text → Text → Bool → TeamPresence → Result (Bool × TeamPresence)
unfolding announce_change
answer now opener_instance_id id instance_id admit p = elim (Map.get id p.sessions) [
  | none ↦ err no_such_live_session
  | some session ↦
      let session' = record session { requests = Map.delete instance_id session.requests } in
      let refused =
        emit (publish (project_live_topic session.project) (live_refused session.id instance_id))
          (put_session session' p) in
      if not (text_eq session.opened_by_instance opener_instance_id)
      then ok (false, p)
      else elim (Map.get instance_id session.requests) [
        | none ↦ ok (true, p)
        | some asked ↦
            let member = record asked { joined_at = now } in
            let admitted = record session' {
              members = Map.set instance_id member session.members;
            } in
            if admit
            then ok (true, announce_change admitted (put_session admitted p))
            else ok (true, refused)
      ]
]

unfoldable pub leave : Text → Text → TeamPresence → TeamPresence
unfolding part
leave instance_id id p = elim (Map.get id p.sessions) [
  | none ↦ p
  | some session ↦ part session instance_id p
]

unfoldable pub close : Text → Text → TeamPresence → Result (Bool × TeamPresence)
unfolding end
close instance_id id p = elim (Map.get id p.sessions) [
  | none ↦ err no_such_live_session
  | some session ↦
      if not (text_eq session.opened_by_instance instance_id)
      then ok (false, p)
      else ok (true, end session p)
]

unfoldable pub say : Text → TeamLiveMessage → TeamPresence → TeamPresence
say session payload p = emit (publish (live_topic session) (said payload)) p
