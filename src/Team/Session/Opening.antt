-- ===== src/Team/Session/Opening.antt =====
-- A session whose connection ended before its constructor was left, by src/team/endpoint.ts: the listener of
-- that end found no session to call.
use narra_leaf_team.Common.{
  ℕ, zero, suc, ◌≡◌, refl, Bool, true, false, ◌&&◌, List, [], ◌∷◌, arith, Text, is_some,
  text_eq_refl,
}
use narra_leaf_team.Data.TextSet
use narra_leaf_team.Data.TextSet.{has-add}
use narra_leaf_team.Team.Hub
use narra_leaf_team.Team.Hub.{Hub}
use narra_leaf_team.Team.Presence.State.{TeamPresence}
use narra_leaf_team.Team.Session.{
  Effect, TeamSession, send, fail, Surroundings, identify, withdraw_management, withdraw_topics,
}
use narra_leaf_team.Team.Session.Handlers.{
  answer_outcome, value, method_error, fault, settled, settle, revalidate, deliver, connection_ends,
  Occurrence, receives, revalidates, settles, delivers, ends, connection_lost, room_is, others_act,
  set_room, set_shared, occur, run, open_session, session_run, send_unheard,
}

-- The state of such a session: nobody will tell it that its connection is gone.
pub record IsStranded (s : TeamSession) : Type 0 where
  pub gone : s.ended ≡ true
  pub unaware : s.over ≡ false
  pub silent : s.topics ≡ []
  pub listed : TextSet.has s.id s.hub.sessions ≡ true

-- What happens while the account is accepted and the server goes on.
unfoldable pub goes_on : Occurrence → Bool
goes_on (revalidates around) = is_some around.caller
goes_on ends = false
goes_on _ = true

unfoldable pub all_go_on : List Occurrence → Bool
unfolding goes_on
all_go_on [] = true
all_go_on (o ∷ os) = goes_on o && all_go_on os

abbrev Stays : TeamSession → Unit {0} × TeamSession × List Effect → Type 0
Stays s r = IsStranded r.1 × (r.2 ≡ [])

IsStranded-revalidate :
    (around : Surroundings) (s : TeamSession)
    → is_some around.caller ≡ true
    → IsStranded s
    → revalidate around s ≡ (tt, s, [])
unfolding revalidate identify withdraw_management withdraw_topics
IsStranded-revalidate around s h b = ground (arith, h, b.silent)

IsStranded-occur :
    (o : Occurrence) (s : TeamSession) → goes_on o ≡ true → IsStranded s → Stays s (occur o s)
unfolding occur goes_on deliver settle answer_outcome settled connection_ends set_room set_shared
    send fail
IsStranded-occur (receives around frame) s h b = ground (arith, b.gone)
IsStranded-occur (revalidates around) s h b =
    ground (arith, b.unaware, IsStranded-revalidate around s h b)
IsStranded-occur (settles id value) s h b = ground (arith, b.gone)
IsStranded-occur (settles id (method_error code)) s h b = ground (arith, b.gone)
IsStranded-occur (settles id fault) s h b = ground (arith, b.gone)
IsStranded-occur (delivers topic seq) s h b = ground (arith, b.gone)
IsStranded-occur ends s h b = cc
IsStranded-occur connection_lost s h b = ground (arith, b.gone)
IsStranded-occur (room_is n) s h b = ground arith
IsStranded-occur (others_act m p) s h b = ground arith

IsStranded-run :
    (os : List Occurrence) (s : TeamSession)
    → all_go_on os ≡ true
    → IsStranded s
    → Stays s (run os s)
unfolding run all_go_on
IsStranded-run [] s h b = (b, refl)
IsStranded-run (o ∷ os) s h b =
    let (b', e) = IsStranded-occur o s (ground (arith, h)) b in
    let (b'', e') = IsStranded-run os ((occur o s).1) (ground (arith, h)) b' in
    (b'', ground (arith, e, e'))

opened-IsStranded :
    (ended : Bool) (id : Text) (room : ℕ) (hub : Hub) (presence : TeamPresence)
    → (open_session ended id room hub presence).0.ended ≡ true
    → IsStranded ((open_session ended id room hub presence).0)
unfolding open_session send_unheard Hub.add
opened-IsStranded true id room hub presence h = record {
  gone = refl;
  unaware = refl;
  silent = refl;
  listed = ground (arith, has-add id id hub.sessions, text_eq_refl id);
}
opened-IsStranded false id zero hub presence h = record {
  gone = refl;
  unaware = refl;
  silent = refl;
  listed = ground (arith, has-add id id hub.sessions, text_eq_refl id);
}
opened-IsStranded false id (suc room) hub presence h = cc

-- A session whose connection has ended by the time its constructor is left is never told so. Over any
-- history in which its account is accepted whenever it is asked for, and the server does not end it, it
-- counts as open: it is in the hub and not over, it has no topics, and nothing that happens has any effect.
pub session_run-IsStranded :
    (ended : Bool) (id : Text) (room : ℕ) (hub : Hub) (presence : TeamPresence)
    (os : List Occurrence)
    → (open_session ended id room hub presence).0.ended ≡ true
    → all_go_on os ≡ true
    → IsStranded ((session_run ended id room hub presence os).0)
      × ((session_run ended id room hub presence os).1
          ≡ (open_session ended id room hub presence).1)
unfolding session_run
session_run-IsStranded ended id room hub presence os h go =
    let s = (open_session ended id room hub presence).0 in
    let (b, e) = IsStranded-run os s go (opened-IsStranded ended id room hub presence h) in
    (b, ground (arith, e))
