-- ===== src/Team/Presence/Departure.antt =====
-- An installation going: what `retire`, `withdraw` and `dropConnection` leave of it in the rooms.
use narra_leaf_team.Common.{
  ◌≡◌, refl, sym, ◌∙◌, ◌⊎◌, inl, inr, true, false, none, some, arith, Text, text_eq, text_eq_iff,
  text_eq_refl, text_eq_cases, List, [], ◌∷◌, subst, Bool-cases, Option-cases,
}
use narra_leaf_team.Data.Map
use narra_leaf_team.Data.Map.{Map}
use narra_leaf_team.Data.TextSet
use narra_leaf_team.Team.Presence.State.{InstanceEntry, LiveEntry, TeamPresence}
use narra_leaf_team.Team.Presence.Rooms.{part, put_session}
use narra_leaf_team.Team.Presence.Instances.{clear_room, clear_rooms}
use narra_leaf_team.Team.Presence.Evolution.{
  Evolves, stays, goes, changes, Evolves-trans, without_request,
}
use narra_leaf_team.Team.Presence.Changes.{SameInstances, without, part-SameInstances, part_cases}
use narra_leaf_team.Team.Presence.RoomSteps.{
  IsKeyed, Evolves-IsKeyed, part-Evolves, rewritten, same_room, keyed,
}

abbrev pub unasked : Text → LiveEntry → LiveEntry
unasked i s = record s { requests = Map.delete i s.requests }

-- One round of the loop: nothing, or the request goes and perhaps the member parts.
clear_room_cases :
    (i k : Text) (p : TeamPresence)
    → ((Map.get k p.sessions ≡ none) × (clear_room i k p ≡ p))
      ⊎ ((s : LiveEntry) × (Map.get k p.sessions ≡ some s)
          × (((Map.has i s.members ≡ false) × (clear_room i k p ≡ put_session (unasked i s) p))
              ⊎ ((Map.has i s.members ≡ true)
                  × (clear_room i k p ≡ part (unasked i s) i (put_session (unasked i s) p)))))
unfolding clear_room
clear_room_cases i k p = elim (Option-cases (Map.get k p.sessions)) [
  | inl e ↦ inl (e, ground arith)
  | inr (s, e) ↦ elim (Bool-cases (Map.has i s.members)) [
    | inr out ↦ inr (s, e, inl (out, ground arith))
    | inl held ↦ inr (s, e, inr (held, ground arith))
  ]
]

pub clear_room-SameInstances : (i k : Text) (p : TeamPresence) → SameInstances p (clear_room i k p)
clear_room-SameInstances i k p = elim (clear_room_cases i k p) [
  | inl (e, w) ↦ rw w (record { same_instances = refl; same_connections = refl })
  | inr (s, e, inl (out, w)) ↦ rw w (record { same_instances = refl; same_connections = refl })
  | inr (s, e, inr (held, w)) ↦ rw w (
      let f = part-SameInstances (unasked i s) i (put_session (unasked i s) p) in
      record { same_instances = f.same_instances; same_connections = f.same_connections })
]

unasked-Evolves :
    (insts : Map InstanceEntry) (i k : Text) (s : LiveEntry) (p : TeamPresence)
    → IsKeyed p.sessions
    → Map.get k p.sessions ≡ some s
    → Evolves insts p.sessions (Map.set s.id (unasked i s) p.sessions)
unasked-Evolves insts i k s p h e =
    rewritten insts p.sessions s (unasked i s) (keyed p.sessions k s h e)
      (same_room s (unasked i s) refl refl refl refl refl) (without_request insts s i)

clear_room-Evolves :
    (insts : Map InstanceEntry) (i k : Text) (p : TeamPresence)
    → IsKeyed p.sessions
    → Evolves insts p.sessions (clear_room i k p).sessions
clear_room-Evolves insts i k p h = elim (clear_room_cases i k p) [
  | inl (e, w) ↦ rw w stays
  | inr (s, e, inl (out, w)) ↦ rw w (unasked-Evolves insts i k s p h e)
  | inr (s, e, inr (held, w)) ↦ rw w (
      Evolves-trans (unasked-Evolves insts i k s p h e) (
        part-Evolves insts (unasked i s) i (put_session (unasked i s) p)
          (ground (arith, Map.get-set s.id s.id (unasked i s) p.sessions, text_eq_refl s.id))))
]

-- A room in which an installation neither is nor asks to be.
abbrev pub IsClear : Text → Map LiveEntry → Text → Type 0
IsClear i m k =
    (s : LiveEntry)
    → Map.get k m ≡ some s
    → (Map.has i s.members ≡ false) × (Map.has i s.requests ≡ false)

parted-IsClear :
    (i k : Text) (s t : LiveEntry) (p : TeamPresence)
    → s.id ≡ k
    → Map.has i s.members ≡ true
    → Map.get k (part (unasked i s) i (put_session (unasked i s) p)).sessions ≡ some t
    → (Map.has i t.members ≡ false) × (Map.has i t.requests ≡ false)
parted-IsClear i k s t p id held f =
    let u = unasked i s in
    elim (part_cases u i (put_session u p)) [
      | inl (out, w) ↦ absurd (ground arith)
      | inr (inl w) ↦
          absurd (ground (arith, Map.get-delete s.id k (Map.set s.id u p.sessions), text_eq_refl k))
      | inr (inr (other, w)) ↦ ground (
        arith,
        Map.get-set s.id k (without i u) (Map.set s.id u p.sessions),
        text_eq_refl k,
        Map.has-get_iff i (Map.delete i s.requests),
        Map.get-delete i i s.requests,
        Map.has-get_iff i (Map.delete i s.members),
        Map.get-delete i i s.members,
        text_eq_refl i,
      )
    ]

parted-other :
    (i k j : Text) (s : LiveEntry) (p : TeamPresence)
    → s.id ≡ k
    → text_eq k j ≡ false
    → clear_room i k p ≡ part (unasked i s) i (put_session (unasked i s) p)
    → Map.get j (clear_room i k p).sessions ≡ Map.get j p.sessions
parted-other i k j s p id d c =
    let u = unasked i s in
    elim (part_cases u i (put_session u p)) [
      | inl (out, w) ↦ rw c (rw w (ground (arith, Map.get-set s.id j u p.sessions)))
      | inr (inl w) ↦ rw c (
          rw w (
            ground (
              arith,
              Map.get-delete s.id j (Map.set s.id u p.sessions),
              Map.get-set s.id j u p.sessions,
            )))
      | inr (inr (other, w)) ↦ rw c (
          rw w (
            ground (
              arith,
              Map.get-set s.id j (without i u) (Map.set s.id u p.sessions),
              Map.get-set s.id j u p.sessions,
            )))
    ]

-- The round of a room clears that room.
clear_room-IsClear :
    (i k : Text) (p : TeamPresence) → IsKeyed p.sessions → IsClear i (clear_room i k p).sessions k
clear_room-IsClear i k p h t f = elim (clear_room_cases i k p) [
  | inl (e, w) ↦ absurd (ground arith)
  | inr (s, e, inl (out, w)) ↦ ground (
    arith,
    Map.get-set s.id k (unasked i s) p.sessions,
    text_eq_refl k,
    h k s,
    Map.has-get_iff i (Map.delete i s.requests),
    Map.get-delete i i s.requests,
    text_eq_refl i,
  )
  | inr (s, e, inr (held, w)) ↦ parted-IsClear i k s t p (h k s e) held (ground arith)
]

-- A round touches no other room.
clear_room-other :
    (i k j : Text) (p : TeamPresence)
    → IsKeyed p.sessions
    → text_eq k j ≡ false
    → Map.get j (clear_room i k p).sessions ≡ Map.get j p.sessions
clear_room-other i k j p h d = elim (clear_room_cases i k p) [
  | inl (e, w) ↦ rw w
  | inr (s, e, inl (out, w)) ↦ ground (arith, Map.get-set s.id j (unasked i s) p.sessions, h k s)
  | inr (s, e, inr (held, w)) ↦ parted-other i k j s p (h k s e) d w
]

clear_room-keeps_IsClear :
    (i k j : Text) (p : TeamPresence)
    → IsKeyed p.sessions
    → IsClear i p.sessions j
    → IsClear i (clear_room i k p).sessions j
clear_room-keeps_IsClear i k j p h c t f = elim (text_eq_cases k j) [
  | inl (same, e) ↦
      clear_room-IsClear i k p h t
        (subst (λ x. Map.get x (clear_room i k p).sessions ≡ some t) (sym same) f)
  | inr (other, e) ↦ c t (sym (clear_room-other i k j p h e) ∙ f)
]

clear_rooms-IsClear :
    (i : Text) (ks : List Text) (p : TeamPresence) (j : Text)
    → IsKeyed p.sessions
    → (TextSet.has j ks ≡ true) ⊎ IsClear i p.sessions j
    → IsClear i (clear_rooms i ks p).sessions j
unfolding clear_rooms TextSet.has
clear_rooms-IsClear i [] p j h (inl e) = absurd (ground arith)
clear_rooms-IsClear i [] p j h (inr c) = c
clear_rooms-IsClear i (k ∷ ks) p j h (inr c) =
    clear_rooms-IsClear i ks (clear_room i k p) j
      (Evolves-IsKeyed (clear_room-Evolves p.instances i k p h) h)
      (inr (clear_room-keeps_IsClear i k j p h c))
clear_rooms-IsClear i (k ∷ ks) p j h (inl e) = elim (text_eq_cases k j) [
  | inl (same, b) ↦
      clear_rooms-IsClear i ks (clear_room i k p) j
        (Evolves-IsKeyed (clear_room-Evolves p.instances i k p h) h)
        (inr (subst (IsClear i (clear_room i k p).sessions) same (clear_room-IsClear i k p h)))
  | inr (other, b) ↦
      clear_rooms-IsClear i ks (clear_room i k p) j
        (Evolves-IsKeyed (clear_room-Evolves p.instances i k p h) h) (inl (ground arith))
]

pub clear_rooms-Evolves :
    (insts : Map InstanceEntry) (i : Text) (ks : List Text) (p : TeamPresence)
    → IsKeyed p.sessions
    → Evolves insts p.sessions (clear_rooms i ks p).sessions
unfolding clear_rooms
clear_rooms-Evolves insts i [] p h = stays
clear_rooms-Evolves insts i (k ∷ ks) p h =
    let first = clear_room-Evolves insts i k p h in
    Evolves-trans first
      (clear_rooms-Evolves insts i ks (clear_room i k p) (Evolves-IsKeyed first h))

pub clear_rooms-SameInstances :
    (i : Text) (ks : List Text) (p : TeamPresence) → SameInstances p (clear_rooms i ks p)
unfolding clear_rooms
clear_rooms-SameInstances i [] p = record { same_instances = refl; same_connections = refl }
clear_rooms-SameInstances i (k ∷ ks) p =
    let first = clear_room-SameInstances i k p in
    let later = clear_rooms-SameInstances i ks (clear_room i k p) in
    record {
      same_instances = later.same_instances ∙ first.same_instances;
      same_connections = later.same_connections ∙ first.same_connections;
    }

-- A room that is there after the steps was there before.
Evolves-has :
    {insts : Map InstanceEntry} {m n : Map LiveEntry} (j : Text)
    → Evolves insts m n
    → Map.has j n ≡ true
    → Map.has j m ≡ true
Evolves-has j stays e = e
Evolves-has j (goes {n = n} k b) e =
    Evolves-has j b (
      ground (arith, Map.has-get_iff j (Map.delete k n), Map.has-get_iff j n, Map.get-delete k j n))
Evolves-has j (changes {n = n} k s t b f r o) e = Evolves-has j b (
    ground (
      arith,
      Map.has-get_iff j (Map.set k t n),
      Map.has-get_iff j n,
      Map.get-set k j t n,
      text_eq_iff k j,
    ))

-- After the whole loop the installation is in no room and waits at none.
pub clear_rooms-IsClear_after :
    (i : Text) (p : TeamPresence) (j : Text)
    → IsKeyed p.sessions
    → IsClear i (clear_rooms i (Map.keys p.sessions) p).sessions j
clear_rooms-IsClear_after i p j h t f =
    let there =
      Evolves-has j (clear_rooms-Evolves p.instances i (Map.keys p.sessions) p h)
        (Map.has-get j (clear_rooms i (Map.keys p.sessions) p).sessions t f) in
    clear_rooms-IsClear i (Map.keys p.sessions) p j h (inl (Map.has-keys j p.sessions ∙ there)) t f
