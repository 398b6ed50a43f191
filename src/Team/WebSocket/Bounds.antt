-- ===== src/Team/WebSocket/Bounds.antt =====
-- What a connection of src/team/websocket.ts holds, and that it is over once.
use narra_leaf_team.Common.{
  ℕ, suc, ◌+◌, ◌≤◌, ◌≡◌, refl, ◌∙◌, subst, true, false, not, ◌&&◌, List, [], ◌∷◌, ◌++◌, inl, inr,
  arith, ltb, if◌then◌else◌, length, Bool-cases, by_branches,
}
use narra_leaf_team.Data.Bytes.{Bytes}
use narra_leaf_team.Team.WebSocket.{
  is_gone, op_close, op_text, WebSocketConnection, WebSocketCall, on_message, on_close, wrote,
  ended_socket, CloseReason, Reaction, sends, closes, put_frame, write_closing, finish, end_socket,
  close, write, send, react, policy, backlog,
}

-- How often the owner was told that it is over.
unfoldable pub closes_in : List WebSocketCall → ℕ
closes_in [] = 0
closes_in (on_close reason ∷ es) = suc (closes_in es)
closes_in (_ ∷ es) = closes_in es

unfoldable pub size_of : List Bytes → ℕ
size_of [] = 0
size_of (b ∷ bs) = length b + size_of bs

-- Between two events: the owner was told once that it is over or not at all yet, nothing is held once
-- it is, and the fragments are counted and within the size of a message.
pub record IsSound (c : WebSocketConnection) : Type 0 where
  pub once : closes_in c.calls ≡ (if c.ended then 1 else 0)
  pub quiet : (if c.ended then length c.pending + c.fragment_bytes else 0) ≡ 0
  pub counted : c.fragment_bytes ≡ size_of c.fragments
  pub within : c.fragment_bytes ≤ c.options.maximum_message_bytes

-- The options stay, and what is pending is no more than before.
pub record Shrinks (c d : WebSocketConnection) : Type 0 where
  pub same_options : d.options ≡ c.options
  pub shorter : length d.pending ≤ length c.pending

pub closes_in-append :
    (es : List WebSocketCall) (e : WebSocketCall)
    → closes_in (es ++ (e ∷ [])) ≡ closes_in es + closes_in (e ∷ [])
unfolding closes_in
closes_in-append [] e = omega arith
closes_in-append (on_close reason ∷ es) e = omega (arith, closes_in-append es e)
closes_in-append (wrote b ∷ es) e = closes_in-append es e
closes_in-append (ended_socket ∷ es) e = closes_in-append es e
closes_in-append (on_message b ∷ es) e = closes_in-append es e

pub size_of-append :
    (bs : List Bytes) (b : Bytes) → size_of (bs ++ (b ∷ [])) ≡ size_of bs + length b
unfolding size_of
size_of-append [] b = omega arith
size_of-append (a ∷ bs) b = omega (arith, size_of-append bs b)

-- A call on the socket changes nothing of what is held.
pub record Keeps (c d : WebSocketConnection) : Type 0 where
  kept_options : d.options ≡ c.options
  kept_pending : d.pending ≡ c.pending
  kept_fragments : d.fragments ≡ c.fragments
  kept_bytes : d.fragment_bytes ≡ c.fragment_bytes
  kept_ended : d.ended ≡ c.ended
  kept_closes : closes_in d.calls ≡ closes_in c.calls

put_frame-Keeps :
    (opcode : ℕ) (payload : Bytes) (c : WebSocketConnection) → Keeps c (put_frame opcode payload c)
unfolding put_frame closes_in
put_frame-Keeps opcode payload c = record {
  kept_options = refl;
  kept_pending = refl;
  kept_fragments = refl;
  kept_bytes = refl;
  kept_ended = refl;
  kept_closes = closes_in-append c.calls _ ∙ omega arith;
}

write_closing-Keeps :
    (payload : Bytes) (c : WebSocketConnection) → Keeps c (write_closing payload c)
unfolding write_closing
write_closing-Keeps payload c =
    by_branches (Keeps c) (is_gone c.socket) c (put_frame op_close payload c)
      (λ gone. record {
        kept_options = refl;
        kept_pending = refl;
        kept_fragments = refl;
        kept_bytes = refl;
        kept_ended = refl;
        kept_closes = refl;
      })
      (λ there. put_frame-Keeps op_close payload c)

pub end_socket-Keeps : (c : WebSocketConnection) → Keeps c (end_socket c)
unfolding end_socket closes_in
end_socket-Keeps c = record {
  kept_options = refl;
  kept_pending = refl;
  kept_fragments = refl;
  kept_bytes = refl;
  kept_ended = refl;
  kept_closes = closes_in-append c.calls _ ∙ omega arith;
}

pub Keeps-IsSound : (c d : WebSocketConnection) → Keeps c d → IsSound c → IsSound d × Shrinks c d
Keeps-IsSound c d k o = (
  record {
    once = ground (arith, k.kept_closes, k.kept_ended, o.once);
    quiet = ground (arith, k.kept_pending, k.kept_ended, k.kept_bytes, o.quiet);
    counted = ground (arith, k.kept_bytes, k.kept_fragments, o.counted);
    within = ground (arith, k.kept_bytes, k.kept_options, o.within);
  },
  record { same_options = k.kept_options; shorter = ground (arith, k.kept_pending) },
)

-- It is over: nothing is held, whatever was held before.
finish_open :
    (reason : CloseReason) (c : WebSocketConnection)
    → c.ended ≡ false
    → closes_in c.calls ≡ 0
    → IsSound (finish reason c) × Shrinks c (finish reason c)
unfolding finish closes_in size_of
finish_open reason c e n = (
  record {
    once = rw e (closes_in-append c.calls (on_close reason) ∙ omega (arith, n));
    quiet = rw e refl;
    counted = rw e refl;
    within = rw e (omega arith);
  },
  record { same_options = rw e refl; shorter = rw e (omega arith) },
)

pub Shrinks-refl : (c : WebSocketConnection) → Shrinks c c
Shrinks-refl c = record { same_options = refl; shorter = omega arith }

pub Shrinks-trans : (b c d : WebSocketConnection) → Shrinks b c → Shrinks c d → Shrinks b d
Shrinks-trans b c d h k = record {
  same_options = k.same_options ∙ h.same_options;
  shorter = omega (arith, h.shorter, k.shorter);
}

Keeps-Shrinks : (c d : WebSocketConnection) → Keeps (record c { closing = true }) d → Shrinks c d
Keeps-Shrinks c d k = record {
  same_options = k.kept_options;
  shorter = ground (arith, k.kept_pending);
}

abbrev ended_by : CloseReason → Bytes → WebSocketConnection → WebSocketConnection
ended_by said payload c =
    end_socket (finish said (write_closing payload (record c { closing = true })))

close_open :
    (said : CloseReason) (payload : Bytes) (c : WebSocketConnection)
    → c.ended ≡ false
    → closes_in c.calls ≡ 0
    → IsSound (ended_by said payload c) × Shrinks c (ended_by said payload c)
close_open said payload c e n =
    let kept = write_closing-Keeps payload (record c { closing = true }) in
    let d = write_closing payload (record c { closing = true }) in
    let f = finish said d in
    let (o, less) = finish_open said d (kept.kept_ended ∙ e) (kept.kept_closes ∙ n) in
    let (o', less') = Keeps-IsSound f (end_socket f) (end_socket-Keeps f) o in
    (
      o',
      Shrinks-trans c d (end_socket f) (Keeps-Shrinks c d kept)
          (Shrinks-trans d f (end_socket f) less less'),
    )

-- The outcome of a step.
abbrev pub IsSoundAfter : WebSocketConnection → WebSocketConnection → Type 0
IsSoundAfter c d = IsSound d × Shrinks c d

pub IsSoundAfter-trans :
    (b c d : WebSocketConnection) → IsSoundAfter b c → IsSoundAfter c d → IsSoundAfter b d
IsSoundAfter-trans b c d (o, h) (o', k) = (o', Shrinks-trans b c d h k)

pub close_anyway :
    (code : ℕ) (reason : Bytes) (c : WebSocketConnection)
    → (c.ended ≡ true → IsSound c)
    → (c.ended ≡ false → closes_in c.calls ≡ 0)
    → IsSoundAfter c (close code reason c)
unfolding close
close_anyway code reason c over n =
    by_branches (IsSoundAfter c) c.ended c _ (λ e. (over e, Shrinks-refl c))
      (λ e. close_open _ _ c e (n e))

pub close-IsSound :
    (code : ℕ) (reason : Bytes) (c : WebSocketConnection)
    → IsSound c
    → IsSoundAfter c (close code reason c)
close-IsSound code reason c o = close_anyway code reason c (λ e. o) (λ e. ground (arith, o.once, e))

pub finish-IsSound :
    (reason : CloseReason) (c : WebSocketConnection) → IsSound c → IsSoundAfter c (finish reason c)
finish-IsSound reason c o = elim (Bool-cases c.ended) [
  | inl e ↦ subst (IsSoundAfter c) (over e) (o, Shrinks-refl c)
  | inr e ↦ finish_open reason c e (ground (arith, o.once, e))
]
  where
    over : c.ended ≡ true → c ≡ finish reason c
    over e = unfold finish in rw e refl

pub write-IsSound :
    (opcode : ℕ) (payload : Bytes) (c : WebSocketConnection)
    → IsSound c
    → IsSoundAfter c (write opcode payload c)
unfolding write
write-IsSound opcode payload c o =
    by_branches (IsSoundAfter c) (is_gone c.socket) c _ (λ e. (o, Shrinks-refl c))
      (λ e.
        by_branches (IsSoundAfter c)
          (not c.closing && ltb c.options.maximum_buffered_bytes c.socket.writable_length)
          (close policy backlog c) (put_frame opcode payload c)
          (λ e. close-IsSound policy backlog c o)
          (λ e. Keeps-IsSound c (put_frame opcode payload c) (put_frame-Keeps opcode payload c) o))

send-IsSound : (text : Bytes) (c : WebSocketConnection) → IsSound c → IsSoundAfter c (send text c)
unfolding send
send-IsSound text c o =
    by_branches (IsSoundAfter c) c.ended c (write op_text text c) (λ e. (o, Shrinks-refl c))
      (λ e. write-IsSound op_text text c o)

pub react-IsSound :
    (rs : List Reaction) (c : WebSocketConnection) → IsSound c → IsSoundAfter c (react rs c)
unfolding react
react-IsSound [] c o = (o, Shrinks-refl c)
react-IsSound (sends text ∷ rs) c o =
    let one = send-IsSound text c o in
    IsSoundAfter-trans c (send text c) (react rs (send text c)) one
      (react-IsSound rs (send text c) one.0)
react-IsSound (closes code reason ∷ rs) c o =
    let one = close-IsSound code reason c o in
    IsSoundAfter-trans c (close code reason c) (react rs (close code reason c)) one
      (react-IsSound rs (close code reason c) one.0)

finish_ended : (reason : CloseReason) (c : WebSocketConnection) → (finish reason c).ended ≡ true
unfolding finish
finish_ended reason c =
    by_branches (λ (d : WebSocketConnection). d.ended ≡ true) c.ended c _ (λ e. e) (λ e. refl)

pub close_ended :
    (code : ℕ) (reason : Bytes) (c : WebSocketConnection) → (close code reason c).ended ≡ true
unfolding close
close_ended code reason c =
    by_branches (λ (d : WebSocketConnection). d.ended ≡ true) c.ended c _ (λ e. e)
      (λ e.
        (end_socket-Keeps (finish _ (write_closing _ (record c { closing = true })))).kept_ended
        ∙ finish_ended _ (write_closing _ (record c { closing = true })))
