-- ===== src/Team/Live/Waiting.antt =====
-- A request outlives the change of rule that let its asker in: src/team/presence.ts never takes it
-- back when the asker joins, so it can still be answered.
use narra_leaf_team.Common.{
  ℕ, ◌≡◌, true, false, none, some, [], ◌∷◌, ◌++◌, arith, Text, text_eq_iff, text_eq_refl,
}
use narra_leaf_team.Data.Map
use narra_leaf_team.Team.Presence.State.{
  TeamClientInstance, open_to_all, TeamLiveMember, LiveEntry, TeamPresence, ok, publish,
  live_refused, project_live_topic, member_of, view,
}
use narra_leaf_team.Team.Presence.Rooms.{announce_change, join, answer, is_member, put_session}

-- The room after the asker walked in, and after the opener has answered no.
abbrev pub joined : ℕ → TeamClientInstance → LiveEntry → LiveEntry
joined now inst s = record s { members = Map.set inst.id (member_of inst now) s.members }

abbrev answered : Text → LiveEntry → LiveEntry
answered i s = record s { requests = Map.delete i s.requests }

-- In a room that anybody may join, somebody who still has a request outstanding and is not in the
-- room comes in by `join`; when the opener then answers that request with no, the call succeeds and
-- publishes a refusal of somebody who is, and stays, in the room.
pub refused_member :
    (now : ℕ) (inst : TeamClientInstance) (id : Text) (p : TeamPresence) (s : LiveEntry)
    (m : TeamLiveMember)
    → Map.get id p.sessions ≡ some s
    → s.id ≡ id
    → s.rule ≡ open_to_all
    → Map.has inst.id s.members ≡ false
    → Map.get inst.id s.requests ≡ some m
    → (q r : TeamPresence) × (join now inst id none p ≡ ok (view (joined now inst s), q))
      × (answer now s.opened_by_instance id inst.id false q ≡ ok (true, r))
      × (is_member id inst.id r ≡ true)
      × (r.calls
          ≡ q.calls ++ (publish (project_live_topic s.project) (live_refused id inst.id) ∷ []))
unfolding join answer is_member announce_change
refused_member now inst id p s m e own rule out asked =
    let t = joined now inst s in
    let u = answered inst.id t in
    let q = announce_change t (put_session t p) in
    let written : Map.get id q.sessions ≡ some t =
      ground (arith, Map.get-set s.id id t p.sessions, text_eq_iff s.id id) in
    (
      q,
      record q {
        sessions = Map.set s.id u q.sessions;
        calls =
            q.calls ++ (publish (project_live_topic s.project) (live_refused s.id inst.id) ∷ []);
      },
      ground arith,
      ground (arith, written, text_eq_refl s.opened_by_instance),
      ground (
        arith,
        Map.get-set s.id id u q.sessions,
        text_eq_iff s.id id,
        Map.has-get_iff inst.id t.members,
        Map.get-set inst.id inst.id (member_of inst now) s.members,
        text_eq_refl inst.id,
      ),
      ground arith,
    )
