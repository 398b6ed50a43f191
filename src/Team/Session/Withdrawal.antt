-- ===== src/Team/Session/Withdrawal.antt =====
-- What a caller who is no operator keeps, and what a connection that ends in the middle of a call leaves.
use narra_leaf_team.Common.{
  ℕ, zero, suc, ◌≡◌, refl, sym, ap, ◌∙◌, subst, Bool, true, false, ◌||◌, ◌<◌, Option, some, List,
  [], ◌∷◌, ◌++◌, leb, arith, Text, text_eq, text_eq_cases, by_branches, Bool-cases, inl, inr,
}
use narra_leaf_team.Data.TextSet
use narra_leaf_team.Data.TextSet.{TextSet, has-add, has-delete}
use narra_leaf_team.Team.Live.{TeamErrorCode, not_found}
use narra_leaf_team.Team.Collaboration
use narra_leaf_team.Team.Collaboration.{TeamMethod, CollaborationVerdict, judge_collaboration}
use narra_leaf_team.Team.Topics
use narra_leaf_team.Team.Topics.{TopicVerdict, is_admin_topic, judge_topic}
use narra_leaf_team.Team.Topics.Judgement.{admin_topics_lem}
use narra_leaf_team.Team.Session.{
  ServerFrame, Effect, TeamSession, Run, ◌>>=◌, closed, close_connection, send, fail, withdrawn,
  delete_topic, withdraw_topic, withdraw_topics, withdraw_management, identify, seq_now,
  Surroundings, subscribes, call, subscribed, error, subscription_limit, closing, dropped, started,
}
use narra_leaf_team.Team.Session.Handlers.{
  Occurrence, revalidates, receives, subscribe_to, acknowledge, add_topic, subscribe, answer, serve,
  start, with_caller, receive, revalidate, occur,
}

abbrev Answer : Type 0
Answer = Unit {0} × TeamSession × List Effect

-- No topic of the server's own among those held.
abbrev pub Cleared : TeamSession → Type 0
Cleared s = (t : Text) → is_admin_topic t ≡ true → TextSet.has t s.topics ≡ false

-- The topics of one state are among those of another.
abbrev pub Fewer : TeamSession → TeamSession → Type 0
Fewer s s' = (t : Text) → TextSet.has t s'.topics ≡ true → TextSet.has t s.topics ≡ true

has-none : (t : Text) → TextSet.has t [] ≡ false
unfolding TextSet.has
has-none t = refl

has-cons : (t u : Text) (us : TextSet) → TextSet.has t (u ∷ us) ≡ text_eq u t || TextSet.has t us
unfolding TextSet.has
has-cons t u us = refl

Fewer-close_connection : (code : ℕ) (s : TeamSession) → Fewer s ((close_connection code s).1)
unfolding close_connection closed
Fewer-close_connection code s =
    by_branches (λ (r : Unit {0} × TeamSession × List Effect). Fewer s r.1) s.ended _ _ (λ e t h. h)
      (λ e.
        by_branches (λ (r : Unit {0} × TeamSession × List Effect). Fewer s r.1) s.over _ _
          (λ o t h. h) (λ o t h. absurd (ground (arith, has-none t, h))))

Fewer-send : (frame : ServerFrame) (s : TeamSession) → Fewer s ((send frame s).1)
unfolding send
Fewer-send frame s =
    by_branches (λ (r : Unit {0} × TeamSession × List Effect). Fewer s r.1) s.ended _ _ (λ e t h. h)
      (λ e.
        elim s.room
          as (λ r. Fewer s (
            (elim r as (λ _. Unit {0} × TeamSession × List Effect) [
              | zero ↦ close_connection 1008 s
              | suc n ↦ (tt, record s { room = n }, Effect.sent frame ∷ [])
            ]).1)) [ zero ↦ Fewer-close_connection 1008 s | suc n ↦ λ t h. h ])

Fewer-withdraw_topic :
    (topic : Text) (s : TeamSession) (t : Text)
    → TextSet.has t ((withdraw_topic topic s).1.topics) ≡ true
    → (TextSet.has t s.topics ≡ true) × (text_eq topic t ≡ false)
unfolding withdraw_topic delete_topic
Fewer-withdraw_topic topic s t h =
    let s' : TeamSession = record s { topics = TextSet.delete topic s.topics } in
    let kept = Fewer-send (withdrawn topic (seq_now topic s')) s' t h in
    ground (arith, kept, has-delete topic t s.topics)

withdraw_topics-Cleared :
    (topics : List Text) (s : TeamSession)
    → ((t : Text)
        → is_admin_topic t ≡ true
        → TextSet.has t s.topics ≡ true
        → TextSet.has t topics ≡ true)
    → Cleared ((withdraw_topics topics s).1)
unfolding withdraw_topics
withdraw_topics-Cleared [] s h = λ t a. elim (Bool-cases (TextSet.has t s.topics)) [
  | inl held ↦ absurd (ground (arith, h t a held, has-none t))
  | inr e ↦ e
]
withdraw_topics-Cleared (topic ∷ topics) s h =
    by_branches (λ (m : Run (Unit {0})). Cleared ((m s).1)) (is_admin_topic topic) _ _
      (λ e. withdraw_topics-Cleared topics ((withdraw_topic topic s).1) (λ t a held.
        let (before, other) = Fewer-withdraw_topic topic s t held in
        ground (arith, h t a before, other, has-cons t topic topics)))
      (λ e. withdraw_topics-Cleared topics s (λ t a held. elim (text_eq_cases topic t) [
        | inl (same, p) ↦ absurd (ground (arith, e, a, ap is_admin_topic same))
        | inr (other, p) ↦ ground (arith, h t a held, p, has-cons t topic topics)
      ]))

identified :
    (around : Surroundings) (s : TeamSession)
    → around.caller ≡ some false
    → identify around s
      ≡ (some false, (withdraw_topics s.topics s).1, (withdraw_topics s.topics s).2 ++ [])
unfolding identify withdraw_management
identified around s e = ground (arith, e)

identify-Cleared :
    (around : Surroundings) (s : TeamSession)
    → around.caller ≡ some false
    → ((identify around s).0 ≡ some false) × Cleared ((identify around s).1)
identify-Cleared around s e =
    subst (λ (r : Option Bool × TeamSession × List Effect). (r.0 ≡ some false) × Cleared (r.1))
      (sym (identified around s e)) (refl, withdraw_topics-Cleared s.topics s (λ t a held. held))

-- What an event asks about the caller before it goes on.
pub data Identifies (around : Surroundings) (s : TeamSession) : Occurrence → Type 0 where
  revalidating : s.over ≡ false → Identifies around s (revalidates around)
  subscribing :
      (id c : ℕ) (topic : Text)
      → s.ended ≡ false
      → Identifies around s (receives around (subscribes id (some (c ∷ topic))))
  calling :
      (id : ℕ) (name : Text) (method : TeamMethod)
      → s.ended ≡ false
      → around.methods name ≡ some method
      → s.in_flight < 64
      → Identifies around s (receives around (call id (some name)))

Cleared-Fewer : (s s' : TeamSession) → Fewer s s' → Cleared s → Cleared s'
Cleared-Fewer s s' f h t a = elim (Bool-cases (TextSet.has t s'.topics)) [
  | inl held ↦ absurd (ground (arith, f t held, h t a))
  | inr e ↦ e
]

Cleared-send : (frame : ServerFrame) (s : TeamSession) → Cleared s → Cleared ((send frame s).1)
Cleared-send frame s h = Cleared-Fewer s ((send frame s).1) (Fewer-send frame s) h

subscribe_to-Cleared :
    (around : Surroundings) (id : ℕ) (topic : Text) (s : TeamSession)
    → Cleared s
    → Cleared ((subscribe_to around id topic false s).1)
unfolding subscribe_to acknowledge add_topic fail
subscribe_to-Cleared around id topic s h =
    by_branches (λ (r : Answer). Cleared (r.1)) (TextSet.has topic s.topics) _ _
      (λ e. Cleared-send (subscribed id topic (seq_now topic s)) s h)
      (λ e.
        by_branches (λ (r : Answer). Cleared (r.1)) (leb subscription_limit (TextSet.size s.topics))
          _ _ (λ full. Cleared-send (error id TeamErrorCode.refused) s h)
          (λ few. judged (judge_topic false around.is_project (some s.presence) topic) refl))
  where
    judged :
        (v : TopicVerdict)
        → judge_topic false around.is_project (some s.presence) topic ≡ v
        → Cleared (
            (elim v as (λ _. Answer) [
              | Topics.allowed ↦ (add_topic topic >>= λ _. acknowledge id topic) s
              | Topics.unknown ↦ fail id not_found s
              | Topics.refused ↦ fail id TeamErrorCode.refused s
            ]).1)
    judged Topics.allowed e =
        let s' : TeamSession = record s { topics = TextSet.add topic s.topics } in
        Cleared-send (subscribed id topic (seq_now topic s')) s' (λ t a.
          elim (text_eq_cases topic t) [
            | inl (same, p) ↦ absurd (
                admin_topics_lem around.is_project (some s.presence) topic
                  (ap is_admin_topic same ∙ a) e)
            | inr (other, p) ↦ ground (arith, h t a, p, has-add topic t s.topics)
          ])
    judged Topics.unknown e = Cleared-send (error id not_found) s h
    judged Topics.refused e = Cleared-send (error id TeamErrorCode.refused) s h

serve-Cleared :
    (around : Surroundings) (id : ℕ) (method : TeamMethod) (s : TeamSession)
    → Cleared s
    → Cleared ((serve around id method false s).1)
unfolding serve start fail
serve-Cleared around id method s h =
    elim (judge_collaboration around.collaboration_open false method)
      as (λ v. Cleared (
        (elim v as (λ _. Run (Unit {0})) [
          | Collaboration.refused ↦ fail id TeamErrorCode.refused
          | Collaboration.allowed ↦ start id method
        ]
          s).1)) [
            | Collaboration.refused ↦ Cleared-send (error id TeamErrorCode.refused) s h
            | Collaboration.allowed ↦ h
          ]

after_identify :
    (around : Surroundings) (s : TeamSession) (next : Bool → Run (Unit {0}))
    → around.caller ≡ some false
    → ((s' : TeamSession) → Cleared s' → Cleared ((next false s').1))
    → Cleared (((identify around >>= (λ c. with_caller c next)) s).1)
after_identify around s next e h =
    let (c, cleared) = identify-Cleared around s e in
    let s' = (identify around s).1 in
    subst (λ (o : Option Bool). Cleared ((with_caller o next s').1)) (sym c) (h s' cleared)

answer-found :
    (around : Surroundings) (id : ℕ) (name : Text) (method : TeamMethod) (s : TeamSession)
    → around.methods name ≡ some method
    → s.in_flight < 64
    → answer around id (some name) s
      ≡ (identify around >>= (λ c. with_caller c (λ o. serve around id method o))) s
unfolding answer
answer-found around id name method s there few = ground (arith, there, few)

-- Whoever is no operator any more holds none of the server's own topics after the next thing that asks
-- who is calling: the timer of a session that is not over, or a subscription or a call of a method that
-- there is, on an open connection with fewer than sixty-four calls in flight. The subscription itself
-- gives none back.
pub identified-Cleared :
    (around : Surroundings) (s : TeamSession) (o : Occurrence)
    → Identifies around s o
    → around.caller ≡ some false
    → Cleared ((occur o s).1)
unfolding occur receive revalidate subscribe answer
identified-Cleared around s _ (revalidating going) e =
    by_branches (λ (r : Answer). Cleared (r.1)) s.over _ _ (λ o. absurd (ground (arith, o, going)))
      (λ o. (identify-Cleared around s e).1)
identified-Cleared around s _ (subscribing id c topic going) e =
    by_branches (λ (r : Answer). Cleared (r.1)) s.ended _ _ (λ o. absurd (ground (arith, o, going)))
      (λ o.
        after_identify around s (λ p. subscribe_to around id (c ∷ topic) p) e
          (λ s' h. subscribe_to-Cleared around id (c ∷ topic) s' h))
identified-Cleared around s _ (calling id name method going there few) e =
    by_branches (λ (r : Answer). Cleared (r.1)) s.ended _ _ (λ o. absurd (ground (arith, o, going)))
      (λ o.
        subst (λ (r : Answer). Cleared (r.1)) (sym (answer-found around id name method s there few))
          (after_identify around s (λ p. serve around id method p) e
            (λ s' h. serve-Cleared around id method s' h)))

-- A connection can end in the middle of a call: taking back the one topic of an account that was an
-- operator writes a frame, which closes a connection whose backlog is full. The session is over and the
-- presence has dropped it, and then the handler of the call is begun all the same, if the deployment is
-- open to collaboration.
pub answer_after_end :
    (around : Surroundings) (s : TeamSession) (id : ℕ) (name topic : Text) (method : TeamMethod)
    → s.ended ≡ false
    → s.over ≡ false
    → s.room ≡ 0
    → s.topics ≡ topic ∷ []
    → is_admin_topic topic ≡ true
    → s.in_flight < 64
    → around.caller ≡ some false
    → around.methods name ≡ some method
    → around.collaboration_open ≡ true
    → (answer around id (some name) s).2 ≡ closing 1008 ∷ dropped ∷ started id method.name ∷ []
unfolding serve start withdraw_topics withdraw_topic delete_topic send close_connection closed
    judge_collaboration
answer_after_end around s id name topic method going live full held admin few caller there wide =
    ap (λ (r : Answer). r.2) (answer-found around id name method s there few)
    ∙ ground (arith, identified around s caller, held, full, admin, going, live, wide)
