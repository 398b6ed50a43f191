-- ===== src/Team/WebSocket/Draining.antt =====
-- The loop of src/team/websocket.ts over what has arrived: it comes to an end, and what is held after
-- any history of a connection.
use narra_leaf_team.Common.{
  ℕ, zero, suc, ◌-◌, ◌*◌, ◌<◌, ◌≡◌, refl, sym, ◌∙◌, subst, false, not, some, List, [], ◌∷◌, ◌++◌,
  ◌⊎◌, inl, inr, arith, ltb, length, Bool-cases, by_branches,
}
use narra_leaf_team.Data.Bytes.{Bytes}
use narra_leaf_team.Team.WebSocket.{
  WebSocketConnection, WebSocketCall, WebSocketOptions, Duplex, Frame, Reaction, close, op_ping,
  going_away,
}
use narra_leaf_team.Team.WebSocket.Frames.{
  Read, incomplete, breach, frame, read_frame, handle, drain, on_data, on_heartbeat, on_error,
  on_closed, connected, SocketEvent, arrives, beats, fails, shuts, owner_does, socket_is, step, run,
}
use narra_leaf_team.Team.WebSocket.Bounds.{
  closes_in, size_of, IsSound, Shrinks-refl, IsSoundAfter, close-IsSound, finish-IsSound,
  write-IsSound, react-IsSound, close_ended,
}
use narra_leaf_team.Team.WebSocket.Headers.{one_frame, Takes, read_frame-Takes}
use narra_leaf_team.Team.WebSocket.Handling.{handle-IsSound}

Read-cases :
    (r : Read)
    → (r ≡ incomplete)
      ⊎ (((why : ℕ) × (reason : Bytes) × (r ≡ breach why reason))
          ⊎ ((f : Frame) × (rest : Bytes) × (r ≡ frame f rest)))
Read-cases incomplete = inl refl
Read-cases (breach why reason) = inr (inl (why, reason, refl))
Read-cases (frame f rest) = inr (inr (f, rest, refl))

module _ (owner : List WebSocketCall → Bytes → List Reaction) where
  -- The three outcomes of a round.
  drain_wait :
      (rounds : ℕ) (c : WebSocketConnection)
      → c.ended ≡ false
      → read_frame c.options.maximum_message_bytes c.fragment_bytes c.pending ≡ incomplete
      → drain owner (suc rounds) c ≡ some c
  unfolding drain
  drain_wait rounds c e h = ground (arith, e, h)

  drain_breach :
      (rounds : ℕ) (c : WebSocketConnection) (why : ℕ) (reason : Bytes)
      → c.ended ≡ false
      → read_frame c.options.maximum_message_bytes c.fragment_bytes c.pending ≡ breach why reason
      → drain owner (suc rounds) c ≡ some (close why reason c)
  unfolding drain
  drain_breach rounds c why reason e h = ground (arith, e, h)

  drain_frame :
      (rounds : ℕ) (c : WebSocketConnection) (f : Frame) (rest : Bytes)
      → c.ended ≡ false
      → read_frame c.options.maximum_message_bytes c.fragment_bytes c.pending ≡ frame f rest
      → drain owner (suc rounds) c
        ≡ drain owner rounds (handle owner f (record c { pending = rest }))
  unfolding drain
  drain_frame rounds c f rest e h = ground (arith, e, h)

  -- The loop over what has arrived ends, and leaves less than one frame.
  drain_lem :
      (rounds : ℕ) (c : WebSocketConnection)
      → IsSound c
      → length c.pending < rounds
      → (d : WebSocketConnection) × (drain owner rounds c ≡ some d)
        × IsSound d
        × (d.options ≡ c.options)
        × (length d.pending < one_frame c.options.maximum_message_bytes)
  drain_lem zero c o l = absurd (omega arith)
  drain_lem (suc rounds) c o l = elim (Bool-cases c.ended) [
    | inl e ↦ (c, (unfold drain in rw e refl), o, refl, ground (arith, o.quiet, e))
    | inr e ↦
        elim (Read-cases (read_frame c.options.maximum_message_bytes c.fragment_bytes c.pending)) [
          | inl h ↦
              let few =
                subst (Takes c.options.maximum_message_bytes c.pending 0) h
                  (read_frame-Takes c.options.maximum_message_bytes c.fragment_bytes c.pending) in
              (c, drain_wait rounds c e h, o, refl, omega (arith, few))
          | inr (inl (why, reason, h)) ↦
              let d = close why reason c in
              let (o', s) = close-IsSound why reason c o in
              (
                d,
                drain_breach rounds c why reason e h,
                o',
                s.same_options,
                ground (arith, o'.quiet, close_ended why reason c),
              )
          | inr (inr (f, rest, h)) ↦
              let c' : WebSocketConnection = record c { pending = rest } in
              let left =
                subst (Takes c.options.maximum_message_bytes c.pending 0) h
                  (read_frame-Takes c.options.maximum_message_bytes c.fragment_bytes c.pending) in
              let sound : IsSound c' = record {
                once = o.once;
                quiet = ground (arith, e);
                counted = o.counted;
                within = o.within;
              } in
              let (o', s) = handle-IsSound owner f c' sound e in
              let (d, ran, o'', same, few) =
                drain_lem rounds (handle owner f c') o' (omega (arith, s.shorter, left)) in
              (
                d,
                drain_frame rounds c f rest e h ∙ ran,
                o'',
                same ∙ s.same_options,
                subst
                    (λ (opts : WebSocketOptions).
                      length d.pending < one_frame opts.maximum_message_bytes)
                    s.same_options few,
              )
        ]
  ]

  -- A chunk that arrives between two events.
  on_data-IsSound :
      (now : ℕ) (chunk : Bytes) (c : WebSocketConnection)
      → IsSound c
      → length c.pending < one_frame c.options.maximum_message_bytes
      → (d : WebSocketConnection) × (on_data owner now chunk c ≡ some d)
        × IsSound d
        × (d.options ≡ c.options)
        × (length d.pending < one_frame c.options.maximum_message_bytes)
  on_data-IsSound now chunk c o few = elim (Bool-cases c.ended) [
    | inl e ↦ (c, (unfold on_data in ground (arith, e)), o, refl, few)
    | inr e ↦
        let held = c.pending ++ chunk in
        let c' : WebSocketConnection = record c { last_heard = now; pending = held } in
        let sound : IsSound c' = record {
          once = o.once;
          quiet = ground (arith, e);
          counted = o.counted;
          within = o.within;
        } in
        let (d, ran, o', same, less) = drain_lem (suc (length held)) c' sound (omega arith) in
        (d, (unfold on_data in ground (arith, e, ran)), o', same, less)
  ]

  -- What holds between two events, with the bound on what is pending.
  abbrev Settled : WebSocketOptions → WebSocketConnection → Type 0
  Settled options c =
      IsSound c
      × (c.options ≡ options)
      × (length c.pending < one_frame options.maximum_message_bytes)

  after-Settled :
      (options : WebSocketOptions) (c d : WebSocketConnection)
      → Settled options c
      → IsSoundAfter c d
      → (r : WebSocketConnection) × (some d ≡ some r) × Settled options r
  after-Settled options c d (o, same, few) (o', s) =
      (d, refl, (o', s.same_options ∙ same, omega (arith, few, s.shorter)))

  step-Settled :
      (options : WebSocketOptions) (e : SocketEvent) (c : WebSocketConnection)
      → Settled options c
      → (d : WebSocketConnection) × (step owner e c ≡ some d) × Settled options d
  unfolding step on_heartbeat on_error on_closed
  step-Settled options (arrives now chunk) c (o, same, few) =
      let few' =
        subst (λ (t : WebSocketOptions). length c.pending < one_frame t.maximum_message_bytes)
          (sym same) few in
      let (d, ran, o', same', less) = on_data-IsSound now chunk c o few' in
      (
        d,
        ran,
        (
          o',
          same' ∙ same,
          subst (λ (t : WebSocketOptions). length d.pending < one_frame t.maximum_message_bytes)
              same less,
        ),
      )
  step-Settled options (beats now) c h = after-Settled options c _ h (
      by_branches (IsSoundAfter c) (not c.heartbeat) c _ (λ e. (h.0, Shrinks-refl c))
        (λ e.
          by_branches (IsSoundAfter c) (ltb (c.options.heartbeat_ms * 2) (now - c.last_heard)) _ _
            (λ e. close-IsSound going_away _ c h.0) (λ e. write-IsSound op_ping [] c h.0)))
  step-Settled options fails c h = after-Settled options c _ h (finish-IsSound _ c h.0)
  step-Settled options shuts c h = after-Settled options c _ h (finish-IsSound _ c h.0)
  step-Settled options (owner_does rs) c h = after-Settled options c _ h (react-IsSound rs c h.0)
  step-Settled options (socket_is s) c (o, same, few) = (
    record c { socket = s },
    refl,
    (record { once = o.once; quiet = o.quiet; counted = o.counted; within = o.within }, same, few),
  )

  run-Settled :
      (options : WebSocketOptions) (es : List SocketEvent) (c : WebSocketConnection)
      → Settled options c
      → (d : WebSocketConnection) × (run owner es c ≡ some d) × Settled options d
  unfolding run
  run-Settled options [] c h = (c, refl, h)
  run-Settled options (e ∷ es) c h =
      let (d, ran, h') = step-Settled options e c h in
      let (r, rest, h'') = run-Settled options es d h' in (r, ground (arith, ran, rest), h'')

  -- After whatever happens to a connection, in whatever order, and whatever its owner does to it: it
  -- has come to rest, with less than one frame's worth pending; nothing is pending and no fragment is
  -- held if it is over; the fragments that are held are counted and within the size of a message; and
  -- its owner has been told exactly once that it is over if it is, and not at all otherwise.
  pub run-IsSound :
      (options : WebSocketOptions) (socket : Duplex) (now : ℕ) (es : List SocketEvent)
      → (d : WebSocketConnection) × (run owner es (connected options socket now) ≡ some d)
        × IsSound d
        × (length d.pending < one_frame options.maximum_message_bytes)
  unfolding connected closes_in size_of
  run-IsSound options socket now es =
      let start : IsSound (connected options socket now) = record {
        once = refl;
        quiet = refl;
        counted = refl;
        within = omega arith;
      } in
      let (d, ran, (o, same, few)) =
        run-Settled options es (connected options socket now) (start, refl, omega arith) in
      (d, ran, o, few)
