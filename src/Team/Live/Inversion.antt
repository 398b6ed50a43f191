-- ===== src/Team/Live/Inversion.antt =====
-- What an answered call has done: who made it, and the method of the presence that it ran.
use narra_leaf_team.Common.{
  ℕ, ◌≡◌, refl, sym, ap, ◌∙◌, Bool, true, false, Option, none, some, List, arith, Text,
  Option-cases, Bool-cases, ◌⊎◌, inl, inr, length, ◌≤◌,
}
use narra_leaf_team.Data.Map
use narra_leaf_team.Team.Presence.State.{
  TeamClientInstance, InstanceAnnouncement, TeamLiveJoinRule, TeamLiveSession, LiveEntry, view,
  TeamPresence, Result, ok, err, out_of_draws,
}
use narra_leaf_team.Team.Presence.Rooms
use narra_leaf_team.Team.Presence.Rooms.{OpenInput}
use narra_leaf_team.Team.Presence.Instances.{announce, instance_on}
use narra_leaf_team.Team.Live.{
  Reply, done, failed, no_draw, ◌>>=◌, settle, owned, room, by_code, opened, join_named,
  calling_instance, live_payload_limit, live_open, live_join, live_rule, live_request_join,
  live_answer_join, live_leave, live_close, live_say, clients_announce,
}

bind_done {ℓ κ} :
    {A : Type ℓ} {B : Type κ} (m : Reply A) (f : A → Reply B) {b : B} {q : TeamPresence}
    → (m >>= f) ≡ done b q
    → (a : A) × (r : TeamPresence) × (m ≡ done a r) × (f a ≡ done b q)
bind_done (done a r) f h = (a, r, refl, h)
bind_done (failed c) f h = cc
bind_done no_draw f h = cc

settled {ℓ} :
    {A : Type ℓ} (r : Result (A × TeamPresence)) {v : A} {q : TeamPresence}
    → settle r ≡ done v q
    → r ≡ ok (v, q)
settled (ok (a, p)) h = ground arith
settled (err e) h = cc
settled out_of_draws h = cc

owned_lem :
    (r : Result (Bool × TeamPresence)) {q : TeamPresence} → owned r ≡ done tt q → r ≡ ok (true, q)
owned_lem (ok (true, p)) h = ground arith
owned_lem (ok (false, p)) h = cc
owned_lem (err e) h = cc
owned_lem out_of_draws h = cc

-- Somebody called: an installation of this connection with that project open.
abbrev pub Caller : Text → TeamPresence → TeamClientInstance → Type 0
Caller connection p i = (project : Text) × (instance_on connection project p ≡ some i)

calling_on :
    (connection project : Text) (p : TeamPresence) (i : TeamClientInstance) (r : TeamPresence)
    → calling_instance connection project p ≡ done i r
    → instance_on connection project p ≡ some i
unfolding calling_instance
calling_on connection project p i r h = ground arith

calling :
    (connection project : Text) (p : TeamPresence) (i : TeamClientInstance) (r : TeamPresence)
    → calling_instance connection project p ≡ done i r
    → Caller connection p i
calling connection project p i r h = (project, calling_on connection project p i r h)

seen_project :
    (id : Text) (p r : TeamPresence) (s : LiveEntry) (seen : TeamLiveSession)
    → Map.get id p.sessions ≡ some s
    → room id p ≡ done seen r
    → seen.project ≡ s.project
unfolding room Rooms.live_session view
seen_project id p r s seen e h = ground (arith, e, h)

-- The caller of a method that only the opener of a room may call.
pub caller_of :
    (connection id : Text) (p : TeamPresence) (s : LiveEntry)
    (f : TeamClientInstance → Result (Bool × TeamPresence)) {q : TeamPresence}
    → Map.get id p.sessions ≡ some s
    → (room id p >>= λ seen. calling_instance connection seen.project p >>= λ i. owned (f i))
      ≡ done tt q
    → (i : TeamClientInstance) × (instance_on connection s.project p ≡ some i)
      × (f i ≡ ok (true, q))
caller_of connection id p s f e h =
    let (seen, r', b, h'') = bind_done (room id p) _ h in
    let (i, r'', c, h''') = bind_done (calling_instance connection seen.project p) _ h'' in
    let project = seen_project id p r' s seen e b in
    (
      i,
      ap (λ (q : Text). instance_on connection q p) (sym project)
          ∙ calling_on connection seen.project p i r'' c,
      owned_lem (f i) h''',
    )

join_named_ran :
    (now : ℕ) (connection id : Text) (code : Option Text) (p : TeamPresence) {v : TeamLiveSession}
    {q : TeamPresence}
    → join_named now connection code p id ≡ done v q
    → (i : TeamClientInstance) × Caller connection p i × (Rooms.join now i id code p ≡ ok (v, q))
unfolding join_named
join_named_ran now connection id code p h =
    let (seen, r', b, h'') = bind_done (room id p) _ h in
    let (i, r'', c, h''') = bind_done (calling_instance connection seen.project p) _ h'' in
    (i, calling connection seen.project p i r'' c, settled (Rooms.join now i id code p) h''')

pub live_join_ran :
    (now : ℕ) (connection session : Text) (code : Option Text) (p : TeamPresence)
    {v : TeamLiveSession} {q : TeamPresence}
    → live_join now connection session code p ≡ done v q
    → (id : Text) × (i : TeamClientInstance) × Caller connection p i
      × (Rooms.join now i id code p ≡ ok (v, q))
unfolding live_join
live_join_ran now connection session code p h =
    let named : Reply Text = elim code [ none ↦ done session p | some c ↦ by_code c p ] in
    let (id, r, a, h') = bind_done named (join_named now connection code p) h in
    let (i, c, ran) = join_named_ran now connection id code p h' in (id, i, c, ran)

pub live_rule_ran :
    (connection id : Text) (rule : TeamLiveJoinRule) (p : TeamPresence) {q : TeamPresence}
    → live_rule connection id rule p ≡ done tt q
    → (i : TeamClientInstance) × Caller connection p i
      × (Rooms.set_rule i.id id rule p ≡ ok (true, q))
unfolding live_rule
live_rule_ran connection id rule p h =
    let (seen, r', b, h'') = bind_done (room id p) _ h in
    let (i, r'', c, h''') = bind_done (calling_instance connection seen.project p) _ h'' in
    (i, calling connection seen.project p i r'' c, owned_lem (Rooms.set_rule i.id id rule p) h''')

pub live_request_join_ran :
    (now : ℕ) (connection id : Text) (p : TeamPresence) {v : TeamLiveSession} {q : TeamPresence}
    → live_request_join now connection id p ≡ done v q
    → (i : TeamClientInstance) × Caller connection p i × (Rooms.request now i id p ≡ ok (v, q))
unfolding live_request_join
live_request_join_ran now connection id p h =
    let (seen, r', b, h'') = bind_done (room id p) _ h in
    let (i, r'', c, h''') = bind_done (calling_instance connection seen.project p) _ h'' in
    (i, calling connection seen.project p i r'' c, settled (Rooms.request now i id p) h''')

pub live_answer_join_ran :
    (now : ℕ) (connection id asked : Text) (admit : Bool) (p : TeamPresence) {q : TeamPresence}
    → live_answer_join now connection id asked admit p ≡ done tt q
    → (i : TeamClientInstance) × Caller connection p i
      × (Rooms.answer now i.id id asked admit p ≡ ok (true, q))
unfolding live_answer_join
live_answer_join_ran now connection id asked admit p h =
    let (seen, r', b, h'') = bind_done (room id p) _ h in
    let (i, r'', c, h''') = bind_done (calling_instance connection seen.project p) _ h'' in
    (
      i,
      calling connection seen.project p i r'' c,
      owned_lem (Rooms.answer now i.id id asked admit p) h''',
    )

pub live_close_ran :
    (connection id : Text) (p : TeamPresence) {q : TeamPresence}
    → live_close connection id p ≡ done tt q
    → (i : TeamClientInstance) × Caller connection p i × (Rooms.close i.id id p ≡ ok (true, q))
unfolding live_close
live_close_ran connection id p h =
    let (seen, r', b, h'') = bind_done (room id p) _ h in
    let (i, r'', c, h''') = bind_done (calling_instance connection seen.project p) _ h'' in
    (i, calling connection seen.project p i r'' c, owned_lem (Rooms.close i.id id p) h''')

pub live_leave_ran :
    (connection id : Text) (p : TeamPresence) {q : TeamPresence}
    → live_leave connection id p ≡ done tt q
    → (q ≡ p) ⊎ ((i : TeamClientInstance) × (q ≡ Rooms.leave i.id id p))
unfolding live_leave
live_leave_ran connection id p h = elim (Option-cases (Rooms.live_session id p)) [
  | inl e ↦ inl (ground arith)
  | inr (seen, e) ↦ elim (Option-cases (instance_on connection seen.project p)) [
    | inl f ↦ inl (ground arith)
    | inr (i, f) ↦ inr (i, ground arith)
  ]
]

pub live_say_ran :
    (now : ℕ) (connection id : Text) (payload : Option (List ℕ)) (p : TeamPresence)
    {q : TeamPresence}
    → live_say now connection id payload p ≡ done tt q
    → (i : TeamClientInstance) × Caller connection p i
      × (encoded : List ℕ) × (payload ≡ some encoded)
      × (length encoded ≤ live_payload_limit)
      × (Rooms.is_member id i.id p ≡ true)
      × (q
          ≡ Rooms.say id
              (record {
                session = id;
                sender = i.id;
                account = i.account;
                at = now;
                payload = encoded;
              })
              p)
unfolding live_say
live_say_ran now connection id payload p {q} h =
    let (seen, r', b, h'') = bind_done (room id p) _ h in
    let (i, r'', c, h''') = bind_done (calling_instance connection seen.project p) _ h'' in
    elim (Option-cases payload) [
      | inl e ↦ absurd (ground arith)
      | inr (encoded, e) ↦ (
        i,
        calling connection seen.project p i r'' c,
        encoded,
        e,
        ground arith,
        ground arith,
        ground arith,
      )
    ]

opened_lem :
    (r : Result (TeamLiveSession × Text × TeamPresence)) (v : TeamLiveSession × Text)
    {q : TeamPresence}
    → opened r ≡ done v q
    → r ≡ ok (v.0, v.1, q)
opened_lem (ok (a, c, p)) v h = ground arith
opened_lem (err e) v h = cc
opened_lem out_of_draws v h = cc

pub live_open_ran :
    (is_project : Text → Bool) (now : ℕ) (uuid : Text) (draws : List ℕ) (connection : Text)
    (input : OpenInput) (p : TeamPresence) (v : TeamLiveSession × Text) {q : TeamPresence}
    → live_open is_project now uuid draws connection input p ≡ done v q
    → (is_project input.project ≡ true)
      × (i : TeamClientInstance) × (instance_on connection input.project p ≡ some i)
      × (Rooms.open_room now uuid draws i input p ≡ ok (v.0, v.1, q))
unfolding live_open
live_open_ran is_project now uuid draws connection input p v {q} h =
    elim (Bool-cases (is_project input.project)) [
      | inr missing ↦ absurd (ground arith)
      | inl there ↦
          let (i, r, c, h') =
            bind_done (calling_instance connection input.project p)
              (λ i. opened (Rooms.open_room now uuid draws i input p)) {b = v} {q = q}
              (ground arith) in
          (
            there,
            i,
            calling_on connection input.project p i r c,
            opened_lem (Rooms.open_room now uuid draws i input p) v h',
          )
    ]

pub clients_announce_ran :
    (is_project : Text → Bool) (now : ℕ) (connection account : Text) (what : InstanceAnnouncement)
    (p : TeamPresence) {v : TeamClientInstance} {q : TeamPresence}
    → clients_announce is_project now connection account what p ≡ done v q
    → announce now connection account what p ≡ ok (v, q)
unfolding clients_announce
clients_announce_ran is_project now connection account what p h = ground arith
