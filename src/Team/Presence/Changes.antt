-- ===== src/Team/Presence/Changes.antt =====
-- What each method on a room writes: the rooms after it, and that it writes nothing else.
use narra_leaf_team.Common.{ℕ, ◌≡◌, ◌⊎◌, Bool, false, Option, some, arith, Text, text_eq}
use narra_leaf_team.Data.Map
use narra_leaf_team.Data.Map.{Map}
use narra_leaf_team.Team.Presence.State.{
  TeamClientInstance, TeamLiveMember, LiveEntry, TeamLiveSession, TeamLiveJoinRule, TeamPresence,
  ok, member_of,
}
use narra_leaf_team.Team.Presence.Rooms.{part, set_rule, join, request, answer, leave, close}

-- Only the rooms and the calls may differ.
pub record SameInstances (p q : TeamPresence) : Type 0 where
  pub same_instances : q.instances ≡ p.instances
  pub same_connections : q.by_connection ≡ p.by_connection

abbrev pub without : Text → LiveEntry → LiveEntry
without i s = record s { members = Map.delete i s.members }

pub part-SameInstances :
    (s : LiveEntry) (i : Text) (p : TeamPresence) → SameInstances p (part s i p)
unfolding part
part-SameInstances s i p = ground arith

pub part_cases :
    (s : LiveEntry) (i : Text) (p : TeamPresence)
    → ((Map.has i s.members ≡ false) × ((part s i p).sessions ≡ p.sessions))
      ⊎ (((part s i p).sessions ≡ Map.delete s.id p.sessions)
          ⊎ ((text_eq s.opened_by_instance i ≡ false)
              × ((part s i p).sessions ≡ Map.set s.id (without i s) p.sessions)))
unfolding part
part_cases s i p = ground (arith, Map.delete-set s.id (without i s) p.sessions)

pub join_cases :
    (now : ℕ) (inst : TeamClientInstance) (id : Text) (code : Option Text) (p : TeamPresence)
    {v : TeamLiveSession} {q : TeamPresence}
    → join now inst id code p ≡ ok (v, q)
    → SameInstances p q
      × ((q.sessions ≡ p.sessions)
          ⊎ ((s : LiveEntry) × (Map.get id p.sessions ≡ some s)
              × (q.sessions
                  ≡ Map.set s.id
                      (record s { members = Map.set inst.id (member_of inst now) s.members })
                      p.sessions)))
unfolding join
join_cases now inst id code p h = ground arith

pub request_cases :
    (now : ℕ) (inst : TeamClientInstance) (id : Text) (p : TeamPresence) {v : TeamLiveSession}
    {q : TeamPresence}
    → request now inst id p ≡ ok (v, q)
    → SameInstances p q
      × ((q.sessions ≡ p.sessions)
          ⊎ ((s : LiveEntry) × (Map.get id p.sessions ≡ some s)
              × (q.sessions
                  ≡ Map.set s.id
                      (record s { requests = Map.set inst.id (member_of inst now) s.requests })
                      p.sessions)))
unfolding request
request_cases now inst id p h = ground arith

pub set_rule_cases :
    (inst id : Text) (rule : TeamLiveJoinRule) (p : TeamPresence) {b : Bool} {q : TeamPresence}
    → set_rule inst id rule p ≡ ok (b, q)
    → SameInstances p q
      × ((q.sessions ≡ p.sessions)
          ⊎ ((s : LiveEntry) × (Map.get id p.sessions ≡ some s)
              × (q.sessions ≡ Map.set s.id (record s { rule = rule }) p.sessions)))
unfolding set_rule
set_rule_cases inst id rule p h = ground arith

pub answer_cases :
    (now : ℕ) (opener id i : Text) (admit : Bool) (p : TeamPresence) {b : Bool} {q : TeamPresence}
    → answer now opener id i admit p ≡ ok (b, q)
    → SameInstances p q
      × ((q.sessions ≡ p.sessions)
          ⊎ ((s : LiveEntry) × (m : TeamLiveMember) × (Map.get id p.sessions ≡ some s)
              × (Map.get i s.requests ≡ some m)
              × ((q.sessions
                    ≡ Map.set s.id (record s { requests = Map.delete i s.requests }) p.sessions)
                  ⊎ (q.sessions
                      ≡ Map.set s.id
                          (record s {
                            requests = Map.delete i s.requests;
                            members = Map.set i (record m { joined_at = now }) s.members;
                          })
                          p.sessions))))
unfolding answer
answer_cases now opener id i admit p h = ground arith

pub close_cases :
    (inst id : Text) (p : TeamPresence) {b : Bool} {q : TeamPresence}
    → close inst id p ≡ ok (b, q)
    → SameInstances p q
      × ((q.sessions ≡ p.sessions)
          ⊎ ((s : LiveEntry) × (Map.get id p.sessions ≡ some s)
              × (q.sessions ≡ Map.delete s.id p.sessions)))
unfolding close
close_cases inst id p h = ground arith

pub leave_cases :
    (inst id : Text) (p : TeamPresence)
    → SameInstances p (leave inst id p)
      × ((leave inst id p ≡ p)
          ⊎ ((s : LiveEntry) × (Map.get id p.sessions ≡ some s)
              × (leave inst id p ≡ part s inst p)))
unfolding leave
leave_cases inst id p = ground (arith, λ (s : LiveEntry). part-SameInstances s inst p)
