-- ===== src/Team/Live/Access.antt =====
-- Who may come into a room, who may run one, who may speak in one, and what a closing connection
-- leaves behind.
use narra_leaf_team.Common.{
  ℕ, ◌≤◌, ◌≡◌, refl, Bool, true, false, Option, none, some, List, [], ◌∷◌, ◌++◌, arith, Text,
  text_eq, text_eq_iff, text_eq_refl, text_eq_cases, Option-cases, Bool-cases, ◌⊎◌, inl, inr, ◌≢◌,
  length,
}
use narra_leaf_team.Data.Map
use narra_leaf_team.Data.Map.{Map}
use narra_leaf_team.Team.Presence.State.{
  TeamClientInstance, InstanceEntry, TeamLiveJoinRule, open_to_all, code_only, request_only,
  TeamLiveMember, LiveEntry, TeamPresence, Result, ok, err, wrong_live_code, live_join_needs_asking,
  publish, said, live_topic, member_of, view,
}
use narra_leaf_team.Team.Presence.Rooms.{
  announce_change, join, set_rule, answer, close, is_member, say, put_session,
}
use narra_leaf_team.Team.Presence.Instances.{drop_connection, instance_on}
use narra_leaf_team.Team.Presence.Closing.{drop_connection-instances}
use narra_leaf_team.Team.Presence.Leaving.{instance_on_lem}
use narra_leaf_team.Team.Live.{
  done, live_rule, live_answer_join, live_close, live_say, live_payload_limit,
}
use narra_leaf_team.Team.Live.Inversion.{caller_of, live_say_ran}
use narra_leaf_team.Team.Live.Validity.{IsValid}
use narra_leaf_team.Team.Live.Histories.{drops, Step-IsValid}

-- What the rule of a room says to somebody who is not in it.
pub data Verdict : Type 0 where
  comes_in needs_code needs_asking : Verdict

unfoldable pub verdict : TeamLiveJoinRule → Option Text → Text → Verdict
verdict open_to_all code own = comes_in
verdict request_only code own = needs_asking
verdict code_only none own = needs_code
verdict code_only (some given) own = elim (text_eq given own) [
  | true ↦ comes_in
  | false ↦ needs_code
]

-- The state after somebody has come in.
abbrev come_in : ℕ → TeamClientInstance → LiveEntry → TeamPresence → TeamPresence
come_in now inst s p =
    let t : LiveEntry = record s { members = Map.set inst.id (member_of inst now) s.members } in
    announce_change t (put_session t p)

is_member-come_in :
    (now : ℕ) (inst : TeamClientInstance) (s : LiveEntry) (p : TeamPresence)
    → is_member s.id inst.id (come_in now inst s p) ≡ true
unfolding is_member announce_change
is_member-come_in now inst s p =
    let t : LiveEntry = record s { members = Map.set inst.id (member_of inst now) s.members } in
    ground (
      arith,
      Map.get-set s.id s.id t p.sessions,
      text_eq_refl s.id,
      Map.has-get_iff inst.id t.members,
      Map.get-set inst.id inst.id (member_of inst now) s.members,
      text_eq_refl inst.id,
    )

join_outside :
    (now : ℕ) (inst : TeamClientInstance) (id : Text) (code : Option Text) (p : TeamPresence)
    (s : LiveEntry) (rule : TeamLiveJoinRule)
    → Map.get id p.sessions ≡ some s
    → Map.has inst.id s.members ≡ false
    → s.rule ≡ rule
    → ((verdict s.rule code s.code ≡ needs_code) × (join now inst id code p ≡ err wrong_live_code))
      ⊎ (((verdict s.rule code s.code ≡ needs_asking)
            × (join now inst id code p ≡ err live_join_needs_asking))
          ⊎ ((verdict s.rule code s.code ≡ comes_in)
              × (q : TeamPresence) × (join now inst id code p
                  ≡ ok (
                    view (record s { members = Map.set inst.id (member_of inst now) s.members }),
                    q,
                  ))
              × (is_member s.id inst.id q ≡ true)))
unfolding join verdict
join_outside now inst id code p s open_to_all e out r =
    inr (inr (ground arith, come_in now inst s p, ground arith, is_member-come_in now inst s p))
join_outside now inst id code p s request_only e out r = inr (inl (ground arith, ground arith))
join_outside now inst id none p s code_only e out r = inl (ground arith, ground arith)
join_outside now inst id (some given) p s code_only e out r =
    elim (Bool-cases (text_eq given s.code)) [
      | inl right ↦
          inr
            (inr (ground arith, come_in now inst s p, ground arith, is_member-come_in now inst s p))
      | inr wrong ↦ inl (ground arith, ground arith)
    ]

-- `join` on a room that is there: a member gets the room and nothing changes, and anybody else is
-- judged by the rule of the room; whoever comes in is in the roster of the room that is written back.
pub join_lem :
    (now : ℕ) (inst : TeamClientInstance) (id : Text) (code : Option Text) (p : TeamPresence)
    (s : LiveEntry)
    → Map.get id p.sessions ≡ some s
    → ((Map.has inst.id s.members ≡ true) × (join now inst id code p ≡ ok (view s, p)))
      ⊎ ((Map.has inst.id s.members ≡ false)
          × (((verdict s.rule code s.code ≡ needs_code)
                × (join now inst id code p ≡ err wrong_live_code))
              ⊎ (((verdict s.rule code s.code ≡ needs_asking)
                    × (join now inst id code p ≡ err live_join_needs_asking))
                  ⊎ ((verdict s.rule code s.code ≡ comes_in)
                      × (q : TeamPresence) × (join now inst id code p
                          ≡ ok (
                            view (record s {
                              members = Map.set inst.id (member_of inst now) s.members;
                            }),
                            q,
                          ))
                      × (is_member s.id inst.id q ≡ true)))))
unfolding join
join_lem now inst id code p s e = elim (Bool-cases (Map.has inst.id s.members)) [
  | inl held ↦ inl (held, ground arith)
  | inr out ↦ inr (out, join_outside now inst id code p s s.rule e out refl)
]

-- From another installation than the one that opened a room, none of the three does anything.
opener_only :
    (now : ℕ) (inst id asked : Text) (rule : TeamLiveJoinRule) (admit : Bool) (p : TeamPresence)
    (s : LiveEntry)
    → Map.get id p.sessions ≡ some s
    → text_eq s.opened_by_instance inst ≡ false
    → (set_rule inst id rule p ≡ ok (false, p))
      × (answer now inst id asked admit p ≡ ok (false, p))
      × (close inst id p ≡ ok (false, p))
unfolding set_rule answer close
opener_only now inst id asked rule admit p s e other = ground (arith, e, other)

-- The calls that change how a room goes on, answered.
pub data Managed (connection id : Text) (p q : TeamPresence) : Type 0 where
  ruled :
      (rule : TeamLiveJoinRule)
      → live_rule connection id rule p ≡ done tt q
      → Managed connection id p q
  answered :
      (now : ℕ) (asked : Text) (admit : Bool)
      → live_answer_join now connection id asked admit p ≡ done tt q
      → Managed connection id p q
  closed : live_close connection id p ≡ done tt q → Managed connection id p q

-- Who made them.
pub record IsOpener (connection : Text) (s : LiveEntry) (p : TeamPresence) (i : TeamClientInstance)
    : Type 0 where
  pub announced :
      (e : InstanceEntry) × (Map.get i.id p.instances ≡ some e) × (e.connection ≡ connection)
  pub in_project : i.project ≡ some s.project
  pub opened : s.opened_by_instance ≡ i.id
  pub account : i.account ≡ s.opened_by

caller_of-IsOpener :
    (connection id : Text) (p q : TeamPresence) (s : LiveEntry) (i : TeamClientInstance)
    (r : Result (Bool × TeamPresence))
    → IsValid p
    → Map.get id p.sessions ≡ some s
    → instance_on connection s.project p ≡ some i
    → (text_eq s.opened_by_instance i.id ≡ false → r ≡ ok (false, p))
    → r ≡ ok (true, q)
    → IsOpener connection s p i
caller_of-IsOpener connection id p q s i r v e on other h =
    elim (text_eq_cases s.opened_by_instance i.id) [
      | inr (away, k) ↦ absurd (ground (arith, other k, h))
      | inl (opened, k) ↦
          let (x, g, same, c, d) = instance_on_lem connection s.project p i v.holds on in
          record {
            announced = (x, g, c);
            in_project = d;
            opened = opened;
            account =
                ground (arith, g, same, opened, (v.in_order.in_rooms id s e).opener_account x);
          }
    ]

-- In a valid state, where a room is there and `live.rule`, `live.answerJoin` or `live.close` is answered
-- for it: the caller is the installation that opened the room, announced on this very connection with the
-- project of the room open, under the account that opened the room.
pub Managed-IsOpener :
    (connection id : Text) (p q : TeamPresence) (s : LiveEntry)
    → IsValid p
    → Map.get id p.sessions ≡ some s
    → Managed connection id p q
    → (i : TeamClientInstance) × IsOpener connection s p i
unfolding live_rule live_answer_join live_close
Managed-IsOpener connection id p q s v e (ruled rule h) =
    let (i, on, r) = caller_of connection id p s (λ i. set_rule i.id id rule p) e h in
    (
      i,
      caller_of-IsOpener connection id p q s i (set_rule i.id id rule p) v e on
          (λ k. (opener_only 0 i.id id [] rule true p s e k).0) r,
    )
Managed-IsOpener connection id p q s v e (answered now asked admit h) =
    let (i, on, r) = caller_of connection id p s (λ i. answer now i.id id asked admit p) e h in
    (
      i,
      caller_of-IsOpener connection id p q s i (answer now i.id id asked admit p) v e on
          (λ k. (opener_only now i.id id asked s.rule admit p s e k).1) r,
    )
Managed-IsOpener connection id p q s v e (closed h) =
    let (i, on, r) = caller_of connection id p s (λ i. close i.id id p) e h in
    (
      i,
      caller_of-IsOpener connection id p q s i (close i.id id p) v e on
          (λ k. (opener_only 0 i.id id [] s.rule true p s e k).2) r,
    )

-- In a valid state, where a room is there and `live.say` is answered for it: what is said is said by
-- somebody in the roster of the room, under the account that the roster shows, is within the limit,
-- and is published on the topic of the room as it was given.
pub live_say_lem :
    (now : ℕ) (connection id : Text) (payload : Option (List ℕ)) (p q : TeamPresence)
    (s : LiveEntry)
    → IsValid p
    → Map.get id p.sessions ≡ some s
    → live_say now connection id payload p ≡ done tt q
    → (i : TeamClientInstance) × (m : TeamLiveMember) × (encoded : List ℕ) × (Map.get i.id s.members
        ≡ some m)
      × (m.account ≡ i.account)
      × (payload ≡ some encoded)
      × (length encoded ≤ live_payload_limit)
      × (q.calls
          ≡ p.calls
            ++ (publish (live_topic id) (
                  said (record {
                    session = id;
                    sender = i.id;
                    account = m.account;
                    at = now;
                    payload = encoded;
                  }))
                ∷ []))
unfolding is_member say
live_say_lem now connection id payload p q s v e h =
    let (i, (project, on), encoded, same, few, held, ran) =
      live_say_ran now connection id payload p h in
    elim (Option-cases (Map.get i.id s.members)) [
      | inl out ↦ absurd (ground (arith, Map.has-get_iff i.id s.members))
      | inr (m, f) ↦
          let (x, g, a) = (v.in_order.in_rooms id s e).members_here i.id m f in
          let (y, g', same', c, d) = instance_on_lem connection project p i v.holds on in
          let accounts : m.account ≡ i.account = ground (arith, g, g', a, same') in
          (i, m, encoded, f, accounts, same, few, ground (arith, ran, accounts))
    ]

-- After a connection has closed, in a state that is valid, whoever a room still lists was announced by
-- another connection before, and still is.
pub drop_connection_leaves :
    (c : Text) (p : TeamPresence)
    → IsValid p
    → (k : Text) (s : LiveEntry) → Map.get k (drop_connection c p).sessions ≡ some s
    → (i : Text) (m : TeamLiveMember) → Map.get i s.members ≡ some m
    → (e : InstanceEntry) × (Map.get i (drop_connection c p).instances ≡ some e)
      × (Map.get i p.instances ≡ some e)
      × (e.connection ≢ c)
drop_connection_leaves c p v k s e i m f =
    let after = Step-IsValid (λ _. true) p (drop_connection c p) (drops c refl) v in
    let (x, g, a) = (after.in_order.in_rooms k s e).members_here i m f in
    let left = drop_connection-instances c i p v.holds v.in_order in
    elim (Option-cases (Map.get i p.instances)) [
      | inl none_there ↦ absurd (ground (arith, left, g))
      | inr (y, g') ↦ (
        x,
        g,
        ground (arith, left, g, g'),
        λ h. absurd (ground (arith, left, g, g', text_eq_iff y.connection c)),
      )
    ]
