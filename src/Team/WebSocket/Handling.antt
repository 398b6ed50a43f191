-- ===== src/Team/WebSocket/Handling.antt =====
-- What src/team/websocket.ts does with one frame keeps what a connection holds in order.
use narra_leaf_team.Common.{
  ◌+◌, ◌≡◌, refl, ◌∙◌, Bool, false, not, ◌||◌, none, some, List, [], ◌∷◌, ◌++◌, arith, ltb, ◌==◌,
  length, is_some, by_branches, codes,
}
use narra_leaf_team.Data.Bytes.{Bytes}
use narra_leaf_team.Team.WebSocket.{
  WebSocketConnection, WebSocketCall, on_message, words, Frame, Reaction, call, finish, end_socket,
  op_text, op_pong, op_ping, op_binary, op_close, op_continuation, protocol_error, too_large,
}
use narra_leaf_team.Team.WebSocket.Frames.{hand_over, gather, collect, handle, concat, larger}
use narra_leaf_team.Team.WebSocket.Bounds.{
  closes_in, closes_in-append, size_of, size_of-append, IsSound, Shrinks-refl, IsSoundAfter,
  IsSoundAfter-trans, close_anyway, close-IsSound, finish-IsSound, write-IsSound, react-IsSound,
  end_socket-Keeps, Keeps-IsSound,
}

module _ (owner : List WebSocketCall → Bytes → List Reaction) where
  gather-IsSound :
      (payload : Bytes) (final : Bool) (c : WebSocketConnection)
      → IsSound c
      → c.ended ≡ false
      → IsSoundAfter c (gather owner payload final c)
  unfolding gather hand_over closes_in size_of
  gather-IsSound payload final c o e =
      let n : closes_in c.calls ≡ 0 = ground (arith, o.once, e) in
      let counted : WebSocketConnection = record c {
        fragment_bytes = c.fragment_bytes + length payload;
      } in
      by_branches (IsSoundAfter c)
        (ltb c.options.maximum_message_bytes (c.fragment_bytes + length payload)) _ _
        (λ h.
          let (o', s) =
            close_anyway too_large larger counted (λ f. absurd (ground (arith, e, f))) (λ f. n) in
          (o', record { same_options = s.same_options; shorter = s.shorter }))
        (λ h.
          by_branches (IsSoundAfter c) (not final) _ _
            (λ f. (
              record {
                once = o.once;
                quiet = rw e refl;
                counted = ground (arith, o.counted, size_of-append c.fragments payload);
                within = ground (arith, h);
              },
              record { same_options = refl; shorter = omega arith },
            ))
            (λ f.
              let emptied : WebSocketConnection = record counted {
                fragments = [];
                fragment_bytes = 0;
                fragmented_opcode = none;
              } in
              let whole = concat (c.fragments ++ (payload ∷ [])) in
              let sound : IsSound (call (on_message whole) emptied) = record {
                once = closes_in-append c.calls (on_message whole) ∙ omega (arith, o.once);
                quiet = rw e refl;
                counted = refl;
                within = omega arith;
              } in
              let (o', s) =
                react-IsSound (owner c.calls whole) (call (on_message whole) emptied) sound in
              (o', record { same_options = s.same_options; shorter = s.shorter })))

  collect-IsSound :
      (f : Frame) (c : WebSocketConnection)
      → IsSound c
      → c.ended ≡ false
      → IsSoundAfter c (collect owner f c)
  unfolding collect
  collect-IsSound f c o e =
      by_branches (IsSoundAfter c) (f.opcode == op_text) _ _
        (λ h.
          by_branches (IsSoundAfter c) (is_some c.fragmented_opcode) _ _
            (λ k. close-IsSound protocol_error _ c o)
            (λ k.
              let begun : WebSocketConnection = record c { fragmented_opcode = some op_text } in
              let (o', s) =
                gather-IsSound f.payload f.final begun
                  (record {
                    once = o.once;
                    quiet = o.quiet;
                    counted = o.counted;
                    within = o.within;
                  })
                  e in
              (o', record { same_options = s.same_options; shorter = s.shorter })))
        (λ h.
          by_branches (IsSoundAfter c) (is_some c.fragmented_opcode) _ _
            (λ k. gather-IsSound f.payload f.final c o e) (λ k. close-IsSound protocol_error _ c o))

  pub handle-IsSound :
      (f : Frame) (c : WebSocketConnection)
      → IsSound c
      → c.ended ≡ false
      → IsSoundAfter c (handle owner f c)
  unfolding handle
  handle-IsSound f c o e =
      by_branches (IsSoundAfter c) (f.opcode == op_ping) _ _
        (λ h. write-IsSound op_pong f.payload c o)
        (λ h1.
          by_branches (IsSoundAfter c) (f.opcode == op_pong) _ _ (λ h. (o, Shrinks-refl c))
            (λ h2.
              by_branches (IsSoundAfter c) (f.opcode == op_close) _ _
                (λ h.
                  let said = words (codes "the client closed the session") in
                  let one = finish-IsSound said c o in
                  let d = finish said c in
                  IsSoundAfter-trans c d (end_socket d) one
                    (Keeps-IsSound d (end_socket d) (end_socket-Keeps d) one.0))
                (λ h3.
                  by_branches (IsSoundAfter c) (f.opcode == op_binary) _ _
                    (λ h. close-IsSound _ _ c o)
                    (λ h4.
                      by_branches (IsSoundAfter c)
                        (f.opcode == op_text || f.opcode == op_continuation) _ _
                        (λ h. collect-IsSound f c o e) (λ h. close-IsSound _ _ c o)))))
