-- ===== src/Team/Hub.antt =====
-- src/team/hub.ts: every open session, and the sequence of every topic. A session is known by its
-- id; what `wants` answers for it comes with the step that asks, since the session keeps its own topics.
pub mod Sequence
pub mod Delivery
pub mod Rounds
use narra_leaf_team.Common.{
  ℕ, ◌+◌, Bool, true, false, Option, none, some, List, [], ◌∷◌, ◌++◌, map, if◌then◌else◌, Text,
}
use narra_leaf_team.Data.Map
use narra_leaf_team.Data.Map.{Map}
use narra_leaf_team.Data.TextSet
use narra_leaf_team.Data.TextSet.{TextSet}
use mathlib.Core.Option

pub record Hub : Type 0 where
  pub sessions : TextSet
  pub sequences : Map ℕ

-- What the hub calls on its sessions, in order.
pub data HubCall {ℓ} (P : Type ℓ) : Type ℓ where
  deliver : Text → Text → ℕ → P → HubCall P
  end : Text → Text → HubCall P

-- One call of `publish` that is still in its loop: the sessions that the walk over the set has come by.
pub record Loop {ℓ} (P : Type ℓ) : Type ℓ where
  pub topic : Text
  pub seq : ℕ
  pub payload : P
  pub visited : TextSet

-- The hub and the calls of `publish` that have not come back, the innermost first. A delivery runs at
-- once whatever the session does with it, which may publish again before the loop goes on.
pub record Publishing {ℓ} (P : Type ℓ) : Type ℓ where
  pub hub : Hub
  pub loops : List (Loop P)

-- What happens at the hub. `advances` takes the innermost loop on by one session, or out where no session
-- is left, and carries what `wants` answers. `ends` is one round of the loop of `closeAll`, and `clears`
-- what stands behind it.
pub data HubStep {ℓ} (P : Type ℓ) : Type ℓ where
  adds : Text → HubStep P
  removes : Text → HubStep P
  publishes : Text → P → HubStep P
  advances : Bool → HubStep P
  forgets : Text → HubStep P
  ends : Text → Text → HubStep P
  clears : HubStep P

unfoldable pub new : Hub
new = record { sessions = []; sequences = [] }

unfoldable pub add : Text → Hub → Hub
add id h = record h { sessions = TextSet.add id h.sessions }

unfoldable pub remove : Text → Hub → Hub
remove id h = record h { sessions = TextSet.delete id h.sessions }

unfoldable pub sequence_of : Hub → Text → ℕ
sequence_of h topic = Option.get_or (Map.get topic h.sequences) 0

unfoldable pub forget : Text → Hub → Hub
forget topic h = record h { sequences = Map.delete topic h.sequences }

-- The first session that a walk has not come by.
unfoldable pub next_session : TextSet → List Text → Option Text
next_session visited [] = none
next_session visited (id ∷ ids) =
    if TextSet.has id visited then next_session visited ids else some id

module _ {ℓ} {P : Type ℓ} where
  -- `publish` up to its loop.
  unfoldable pub publish : Text → P → Publishing P → Publishing P
  publish topic payload h =
      let seq = sequence_of h.hub topic + 1 in
      record {
        hub = record (h.hub) { sequences = Map.set topic seq h.hub.sequences };
        loops = record { topic = topic; seq = seq; payload = payload; visited = [] } ∷ h.loops;
      }

  -- One round of that loop.
  unfoldable pub visit :
      Bool → Loop P → List (Loop P) → Hub → Option Text → Publishing P × List (HubCall P)
  visit wants loop loops h none = (record { hub = h; loops = loops }, [])
  visit wants loop loops h (some id) = (
    record { hub = h; loops = record loop { visited = TextSet.add id loop.visited } ∷ loops },
    if wants then deliver id loop.topic loop.seq loop.payload ∷ [] else [],
  )

  unfoldable pub advance : Bool → Hub → List (Loop P) → Publishing P × List (HubCall P)
  unfolding visit next_session
  advance wants h [] = (record { hub = h; loops = [] }, [])
  advance wants h (loop ∷ loops) = visit wants loop loops h (next_session loop.visited h.sessions)

  -- A session that is deleted from the set and put there again stands at its end, before every walk.
  unfoldable pub forget_visit : Text → List (Loop P) → List (Loop P)
  forget_visit id [] = []
  forget_visit id (loop ∷ loops) =
      record loop { visited = TextSet.delete id loop.visited } ∷ forget_visit id loops

  unfoldable pub forget_visits : List (Loop P) → List (Loop P)
  forget_visits [] = []
  forget_visits (loop ∷ loops) = record loop { visited = [] } ∷ forget_visits loops

  -- The steps that `closeAll` takes; others come between them, from the sessions that end.
  unfoldable pub close_all : Text → Hub → List (HubStep P)
  close_all message h = map (λ id. ends message id) h.sessions ++ (clears ∷ [])

  unfoldable pub step : Publishing P → HubStep P → Publishing P × List (HubCall P)
  unfolding add remove forget publish advance forget_visit forget_visits
  step h (adds id) = (record h { hub = add id h.hub }, [])
  step h (removes id) = (record { hub = remove id h.hub; loops = forget_visit id h.loops }, [])
  step h (publishes topic payload) = (publish topic payload h, [])
  step h (advances wants) = advance wants h.hub h.loops
  step h (forgets topic) = (record h { hub = forget topic h.hub }, [])
  step h (ends message id) = (h, end id message ∷ [])
  step h clears =
      (record { hub = record (h.hub) { sessions = [] }; loops = forget_visits h.loops }, [])

  unfoldable pub run : Publishing P → List (HubStep P) → Publishing P × List (HubCall P)
  unfolding step
  run h [] = (h, [])
  run h (s ∷ ss) = let (h', calls) = step h s in let (h'', more) = run h' ss in (h'', calls ++ more)
