-- ===== src/Team/Session/Keeping.antt =====
-- What the parts of a session's handlers keep.
use narra_leaf_team.Common.{
  ℕ, zero, suc, ◌+◌, ◌≤◌, ◌≡◌, refl, sym, ap, ◌∙◌, Bool, true, false, not, Option, none, some, List,
  [], ◌∷◌, ◌++◌, arith, Text, text_eq_refl, by_branches,
}
use narra_leaf_team.Data.TextSet
use narra_leaf_team.Data.TextSet.{has-add, has-delete, size-delete-le, size-add-le}
use narra_leaf_team.Team.Hub
use narra_leaf_team.Data.Map.{Map}
use narra_leaf_team.Team.Live.{TeamErrorCode, unauthenticated}
use narra_leaf_team.Team.Presence.State.{TeamPresence}
use narra_leaf_team.Team.Collaboration.{TeamMethod}
use narra_leaf_team.Team.Topics.{is_admin_topic}
use narra_leaf_team.Team.Session.{
  ServerFrame, error, bye, subscribed, withdrawn, close_code_for, seq_now, Surroundings, Effect,
  sent, closing, dropped, started, TeamSession, Run, ◌>>=◌, done, closed, close_connection, send,
  say_bye, fail, delete_topic, withdraw_topic, withdraw_topics, withdraw_management, identify,
}
use narra_leaf_team.Team.Session.Handlers.{acknowledge, start, settled, set_room, set_shared}

abbrev pub as_number : Bool → ℕ
as_number true = 1
as_number false = 0

-- How often an effect says that the connection closes, and that the presence drops it.
abbrev pub closings : List Effect → ℕ
closings [] = 0
closings (closing code ∷ es) = closings es + 1
closings (_ ∷ es) = closings es

abbrev pub drops : List Effect → ℕ
drops [] = 0
drops (dropped ∷ es) = drops es + 1
drops (_ ∷ es) = drops es

pub closings-append : (xs ys : List Effect) → closings (xs ++ ys) ≡ closings xs + closings ys
closings-append [] ys = omega arith
closings-append (sent f ∷ xs) ys = closings-append xs ys
closings-append (closing c ∷ xs) ys = omega (arith, closings-append xs ys)
closings-append (dropped ∷ xs) ys = closings-append xs ys
closings-append (started i m ∷ xs) ys = closings-append xs ys

pub drops-append : (xs ys : List Effect) → drops (xs ++ ys) ≡ drops xs + drops ys
drops-append [] ys = omega arith
drops-append (sent f ∷ xs) ys = drops-append xs ys
drops-append (closing c ∷ xs) ys = drops-append xs ys
drops-append (dropped ∷ xs) ys = omega (arith, drops-append xs ys)
drops-append (started i m ∷ xs) ys = drops-append xs ys

-- No more than `k` calls in flight and sixty-four topics, none of them once it is over; it is over with
-- its connection, and in the hub until then.
pub record IsBounded (k : ℕ) (s : TeamSession) : Type 0 where
  pub with_connection : s.over ≡ s.ended
  pub topics_few : TextSet.size s.topics ≤ 64
  pub calls_few : s.in_flight ≤ k
  pub in_hub : TextSet.has s.id s.hub.sessions ≡ not s.over

-- From one state to another, the connection closes and is dropped as often as the session comes to be
-- over: never again once it is.
pub record Balance (s : TeamSession) (es : List Effect) (s' : TeamSession) : Type 0 where
  pub closes : closings es + as_number s.ended ≤ as_number s'.ended
  pub drops_once : drops es + as_number s.over ≡ as_number s'.over

abbrev pub Holds : {A : Type 0} → ℕ → TeamSession → A × TeamSession × List Effect → Type 0
Holds k s r = IsBounded k (r.1) × Balance s (r.2) (r.1)

abbrev pub Keeps : {A : Type 0} → ℕ → Run A → ℕ → Type 0
Keeps k m k' = (s : TeamSession) → IsBounded k s → Holds k' s (m s)

pub Balance-trans :
    (s m s' : TeamSession) (xs ys : List Effect)
    → Balance s xs m
    → Balance m ys s'
    → Balance s (xs ++ ys) s'
Balance-trans s m s' xs ys h k = record {
  closes = omega (arith, closings-append xs ys, h.closes, k.closes);
  drops_once = omega (arith, drops-append xs ys, h.drops_once, k.drops_once);
}

pub Balance-still : (s : TeamSession) → Balance s [] s
Balance-still s = record { closes = omega arith; drops_once = omega arith }

pub Keeps->>= :
    {A B : Type 0} (k l n : ℕ) (m : Run A) (f : A → Run B)
    → Keeps k m l
    → ((a : A) → Keeps l (f a) n)
    → Keeps k (m >>= f) n
Keeps->>= k l n m f h j s b =
    let (b', e) = h s b in
    let (b'', e') = j ((m s).0) ((m s).1) b' in
    (
      b'',
      Balance-trans s ((m s).1) ((f ((m s).0) ((m s).1)).1) ((m s).2) ((f ((m s).0) ((m s).1)).2) e
          e',
    )

pub Keeps-done : {A : Type 0} (k : ℕ) (a : A) → Keeps k (done a) k
Keeps-done k a s b = (b, Balance-still s)

pub out_of_hub : (id : Text) (h : Hub.Hub) → TextSet.has id ((Hub.remove id h).sessions) ≡ false
unfolding Hub.remove
out_of_hub id h = ground (arith, has-delete id id h.sessions, text_eq_refl id)

pub Keeps-close_connection : (k code : ℕ) → Keeps k (close_connection code) k
unfolding close_connection closed
Keeps-close_connection k code s b =
    by_branches (Holds k s) s.ended _ _ (λ e. (b, Balance-still s))
      (λ e.
        by_branches
          (λ (r : Unit {0} × TeamSession × List Effect). Holds k s (tt, r.1, closing code ∷ r.2))
          s.over _ _ (λ o. absurd (ground (arith, e, o, b.with_connection)))
          (λ o. (
            record {
              with_connection = refl;
              topics_few = omega arith;
              calls_few = b.calls_few;
              in_hub = out_of_hub s.id s.hub;
            },
            record {
              closes = omega (arith, ap as_number e);
              drops_once = omega (arith, ap as_number o);
            },
          )))

pub Keeps-closed : (k : ℕ) (s : TeamSession) → IsBounded k s → s.ended ≡ true → Holds k s (closed s)
unfolding closed
Keeps-closed k s b e =
    by_branches (Holds k s) s.over _ _ (λ o. (b, Balance-still s))
      (λ o. absurd (ground (arith, e, o, b.with_connection)))

pub Keeps-send : (k : ℕ) (frame : ServerFrame) → Keeps k (send frame) k
unfolding send
Keeps-send k frame s b =
    by_branches (Holds k s) s.ended _ _ (λ e. (b, Balance-still s))
      (λ e.
        elim s.room
          as (λ r. Holds {A = Unit {0}} k s (elim r [
            | zero ↦ close_connection 1008 s
            | suc n ↦ (tt, record s { room = n }, sent frame ∷ [])
          ])) [
            | zero ↦ Keeps-close_connection k 1008 s b
            | suc n ↦ (
              record {
                with_connection = b.with_connection;
                topics_few = b.topics_few;
                calls_few = b.calls_few;
                in_hub = b.in_hub;
              },
              record { closes = omega arith; drops_once = omega arith },
            )
          ])

pub Keeps-fail : (k id : ℕ) (code : TeamErrorCode) → Keeps k (fail id code) k
unfolding fail
Keeps-fail k id code = Keeps-send k (error id code)

-- A state that differs in nothing that the bounds are about but the topics and the calls.
pub Keeps-set :
    (k : ℕ) (s s' : TeamSession)
    → s'.over ≡ s.over
    → s'.ended ≡ s.ended
    → TextSet.has s'.id s'.hub.sessions ≡ TextSet.has s.id s.hub.sessions
    → TextSet.size s'.topics ≤ 64
    → s'.in_flight ≤ k
    → (l : ℕ) → IsBounded l s
    → (es : List Effect) → closings es ≡ 0
    → drops es ≡ 0
    → IsBounded k s' × Balance s es s'
Keeps-set k s s' o e h t c l b es ce de = (
  record {
    with_connection = o ∙ b.with_connection ∙ sym e;
    topics_few = t;
    calls_few = c;
    in_hub = h ∙ b.in_hub ∙ ap not (sym o);
  },
  record {
    closes = omega (arith, ap as_number e, ce);
    drops_once = omega (arith, ap as_number o, de);
  },
)

pub Keeps-delete_topic : (k : ℕ) (topic : Text) → Keeps k (delete_topic topic) k
unfolding delete_topic
Keeps-delete_topic k topic s b =
    Keeps-set k s _ refl refl refl (omega (arith, size-delete-le topic s.topics, b.topics_few))
      b.calls_few k b [] refl refl

pub Keeps-start : (k id : ℕ) (method : TeamMethod) → Keeps k (start id method) (k + 1)
unfolding start
Keeps-start k id method s b =
    Keeps-set (k + 1) s _ refl refl refl b.topics_few (omega (arith, b.calls_few)) k b _ refl refl

pub Keeps-settled : (k : ℕ) → Keeps k settled k
unfolding settled
Keeps-settled k s b =
    Keeps-set k s _ refl refl refl b.topics_few (omega (arith, b.calls_few)) k b [] refl refl

pub Keeps-set_room : (k n : ℕ) → Keeps k (set_room n) k
unfolding set_room
Keeps-set_room k n s b = Keeps-set k s _ refl refl refl b.topics_few b.calls_few k b [] refl refl

pub Keeps-set_shared : (k : ℕ) (m : Map ℕ) (p : TeamPresence) → Keeps k (set_shared m p) k
unfolding set_shared
Keeps-set_shared k m p s b =
    Keeps-set k s _ refl refl refl b.topics_few b.calls_few k b [] refl refl

ended-close_connection : (code : ℕ) (s : TeamSession) → (close_connection code s).1.ended ≡ true
unfolding close_connection closed
ended-close_connection code s =
    by_branches (λ (r : Unit {0} × TeamSession × List Effect). r.1.ended ≡ true) s.ended _ _
      (λ e. e)
      (λ e.
        by_branches (λ (r : Unit {0} × TeamSession × List Effect). r.1.ended ≡ true) s.over _ _
          (λ o. refl) (λ o. refl))

pub Keeps-close_off : (k code : ℕ) → Keeps k (close_connection code >>= (λ _. closed)) k
Keeps-close_off k code s b =
    let r = close_connection code s in
    let (b', e) = Keeps-close_connection k code s b in
    let (b'', e') = Keeps-closed k r.1 b' (ended-close_connection code s) in
    (b'', Balance-trans s r.1 (closed r.1).1 r.2 (closed r.1).2 e e')

pub Keeps-say_bye : (k : ℕ) (code : TeamErrorCode) → Keeps k (say_bye code) k
unfolding say_bye
Keeps-say_bye k code =
    Keeps->>= k k k (send (bye code))
      (λ _. close_connection (close_code_for code) >>= (λ _. closed)) (Keeps-send k (bye code))
      (λ _. Keeps-close_off k (close_code_for code))

pub Keeps-acknowledge : (k id : ℕ) (topic : Text) → Keeps k (acknowledge id topic) k
unfolding acknowledge
Keeps-acknowledge k id topic s b = Keeps-send k (subscribed id topic (seq_now topic s)) s b

pub Keeps-withdraw_topic : (k : ℕ) (topic : Text) → Keeps k (withdraw_topic topic) k
unfolding withdraw_topic
Keeps-withdraw_topic k topic =
    Keeps->>= k k k (delete_topic topic) (λ _ s. send (withdrawn topic (seq_now topic s)) s)
      (Keeps-delete_topic k topic) (λ _ s b. Keeps-send k (withdrawn topic (seq_now topic s)) s b)

pub Keeps-withdraw_topics : (k : ℕ) (topics : List Text) → Keeps k (withdraw_topics topics) k
unfolding withdraw_topics
Keeps-withdraw_topics k [] = Keeps-done k tt
Keeps-withdraw_topics k (topic ∷ topics) =
    by_branches (λ (m : Run (Unit {0})). Keeps k m k) (is_admin_topic topic) _ _
      (λ e.
        Keeps->>= k k k (withdraw_topic topic) (λ _. withdraw_topics topics)
          (Keeps-withdraw_topic k topic) (λ _. Keeps-withdraw_topics k topics))
      (λ e. Keeps-withdraw_topics k topics)

pub Keeps-withdraw_management :
    (k : ℕ) (is_operator : Bool) → Keeps k (withdraw_management is_operator) k
unfolding withdraw_management
Keeps-withdraw_management k is_operator s b =
    by_branches (Holds k s) is_operator _ _ (λ e. (b, Balance-still s))
      (λ e. Keeps-withdraw_topics k s.topics s b)

pub Keeps-identify : (k : ℕ) (around : Surroundings) → Keeps k (identify around) k
unfolding identify
Keeps-identify k around =
    elim around.caller
      as (λ c.
        Keeps {A = Option Bool} k
          (elim c [
            | none ↦ (say_bye unauthenticated >>= λ _. done none)
            | some is_operator ↦ (withdraw_management is_operator >>= λ _. done (some is_operator))
          ])
          k) [
            | none ↦
                Keeps->>= {B = Option Bool} k k k (say_bye unauthenticated) (λ _. done none)
                  (Keeps-say_bye k unauthenticated) (λ _. Keeps-done {A = Option Bool} k none)
            | some is_operator ↦
                Keeps->>= k k k (withdraw_management is_operator) (λ _. done (some is_operator))
                  (Keeps-withdraw_management k is_operator) (λ _. Keeps-done k (some is_operator))
          ]
