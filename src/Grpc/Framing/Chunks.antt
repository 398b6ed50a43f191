-- ===== src/Grpc/Framing/Chunks.antt =====
-- What `push` of src/grpc/framing.ts gives back, however the bytes of a stream are cut into chunks.
use narra_leaf_team.Common.{
  ℕ, zero, suc, ◌+◌, ◌≤◌, ◌<◌, ◌≡◌, ◌≢◌, refl, ap, ◌∙◌, arith, List, [], ◌∷◌, ◌++◌, inl, inr,
  append_assoc, append-nil, length, length-append, take-append, drop-append, All, false,
}
use narra_leaf_team.Data.Bytes.{Bytes, write_uint32_be, uint32_be}
use narra_leaf_team.Grpc.Framing.{
  out_of_fuel, Result, ok, err, encode_frame, FrameAssembler, new, whole, round, push_loop, push,
  incomplete, maximum_message_bytes,
}
use narra_leaf_team.Grpc.Framing.Rounds.{
  round_within, Round-cases, push_loop_whole, push_loop_agree, push_loop_in_fuel, push_loop-append,
  push_loop-carried,
}

-- `push` always comes back: the rounds it may take are never used up.
pub push_in_fuel : (chunk : Bytes) (a : FrameAssembler) → push chunk a ≢ err out_of_fuel
unfolding push
push_in_fuel chunk a h =
    let buffer = a.buffered ++ chunk in
    ground (
      arith,
      h,
      push_loop_in_fuel (suc (length buffer)) a.maximum_messages a.decoded buffer [] (omega arith),
    )

-- `push` in terms of its loop, one way and the other.
push-push_loop :
    (c : Bytes) (a a' : FrameAssembler) (ms : List Bytes)
    → push c a ≡ ok (ms, a')
    → (push_loop (suc (length (a.buffered ++ c))) a.maximum_messages a.decoded (a.buffered ++ c) []
        ≡ ok (ms, (a'.decoded, a'.buffered)))
      × (a'.maximum_messages ≡ a.maximum_messages)
unfolding push
push-push_loop c a a' ms h = ground (arith, h)

push_loop-push :
    (f : ℕ) (c : Bytes) (a a' : FrameAssembler) (ms : List Bytes)
    → length (a.buffered ++ c) < f
    → push_loop f a.maximum_messages a.decoded (a.buffered ++ c) []
      ≡ ok (ms, (a'.decoded, a'.buffered))
    → a'.maximum_messages ≡ a.maximum_messages
    → push c a ≡ ok (ms, a')
unfolding push
push_loop-push f c a a' ms l h e = ground (
  arith,
  h,
  e,
  push_loop_agree f (suc (length (a.buffered ++ c))) a.maximum_messages a.decoded (a.buffered ++ c)
      [],
)

-- Two chunks that are pushed one after the other, neither refused, give together the messages and the
-- state that one chunk of the bytes of both gives.
pub push-push :
    (c1 c2 : Bytes) (a a1 a2 : FrameAssembler) (ms1 ms2 : List Bytes)
    → push c1 a ≡ ok (ms1, a1)
    → push c2 a1 ≡ ok (ms2, a2)
    → push (c1 ++ c2) a ≡ ok (ms1 ++ ms2, a2)
push-push c1 c2 a a1 a2 ms1 ms2 h k =
    let (h', e1) = push-push_loop c1 a a1 ms1 h in
    let (k', e2) = push-push_loop c2 a1 a2 ms2 k in
    let first = suc (length (a.buffered ++ c1)) in
    let second = suc (length (a1.buffered ++ c2)) in
    let size = length-append a1.buffered c2 in
    let run : Result (List Bytes × (ℕ × Bytes)) = ok (ms1 ++ ms2, (a2.decoded, a2.buffered)) in
    let k'' : push_loop second a.maximum_messages a1.decoded (a1.buffered ++ c2) (ms1 ++ []) ≡ run =
      ground (
        arith,
        e1,
        push_loop-carried second a1.maximum_messages a1.decoded (a1.buffered ++ c2) ms1 [] ms2
            (a2.decoded, a2.buffered) k',
      ) in
    let both : push_loop (first + second) a.maximum_messages a.decoded (a.buffered ++ (c1 ++ c2)) []
        ≡ run =
      ground (
        arith,
        append_assoc a.buffered c1 c2,
        push_loop-append first second a.maximum_messages a.decoded a1.decoded (a.buffered ++ c1)
            a1.buffered c2 [] ms1 (ms1 ++ ms2, (a2.decoded, a2.buffered)) h'
            (ground (arith, k'', append-nil ms1)) (ground (arith, size)),
      ) in
    push_loop-push (first + second) (c1 ++ c2) a a2 (ms1 ++ ms2)
      (ground (
        arith,
        length-append a.buffered (c1 ++ c2),
        length-append c1 c2,
        length-append a.buffered c1,
        size,
      ))
      both (e2 ∙ e1)

-- The first frame of a buffer is taken whole.
round-encode_frame :
    (maximum decoded : ℕ) (message more : Bytes)
    → length message ≤ maximum_message_bytes
    → decoded < maximum
    → round maximum decoded (encode_frame message ++ more) ≡ whole message more
unfolding round encode_frame write_uint32_be
round-encode_frame maximum decoded message more h k = ground (
  arith,
  uint32_be (length message),
  length-append message more,
  take-append message more,
  drop-append message more,
)

-- The frames of a list of messages, one behind the other.
abbrev pub frames : List Bytes → Bytes
frames [] = []
frames (m ∷ ms) = encode_frame m ++ frames ms

push_loop-frames :
    (ms before : List Bytes) (f maximum decoded : ℕ)
    → All (λ m. length m ≤ maximum_message_bytes) ms
    → decoded + length ms ≤ maximum
    → length ms < f
    → push_loop f maximum decoded (frames ms) before ≡ ok (before ++ ms, (decoded + length ms, []))
unfolding push_loop
push_loop-frames ms before zero maximum decoded small few l = absurd (omega arith)
push_loop-frames [] before (suc f) maximum decoded small few l = ground (arith, append-nil before)
push_loop-frames (m ∷ ms) before (suc f) maximum decoded small few l =
    push_loop_whole f maximum decoded (encode_frame m ++ frames ms) m (frames ms) before
      (round-encode_frame maximum decoded m (frames ms) small.0 (omega arith))
    ∙ push_loop-frames ms (before ++ (m ∷ [])) f maximum (decoded + 1) small.1 (omega arith)
        (omega arith)
    ∙ ground (arith, append_assoc before (m ∷ []) ms)

length-frames : (ms : List Bytes) → length ms ≤ length (frames ms)
unfolding encode_frame
length-frames [] = omega arith
length-frames (m ∷ ms) =
    ground (arith, length-frames ms, length-append (write_uint32_be (length m) ++ m) (frames ms))

-- What a caller frames is read back: no more messages than the call carries, none of them too large,
-- come out as they went in, in order, when the last byte of their frames has arrived, and nothing
-- is left over.
pub push-frames :
    (ms : List Bytes) (maximum : ℕ)
    → All (λ m. length m ≤ maximum_message_bytes) ms
    → length ms ≤ maximum
    → (a : FrameAssembler) × (push (frames ms) (new maximum) ≡ ok (ms, a))
      × (incomplete a ≡ false)
      × (a.decoded ≡ length ms)
unfolding incomplete new
push-frames ms maximum small few =
    let a : FrameAssembler = record {
      buffered = [];
      decoded = length ms;
      maximum_messages = maximum;
    } in
    (
      a,
      push_loop-push (suc (length (frames ms))) (frames ms) (new maximum) a ms (omega arith)
          (push_loop-frames ms [] (suc (length (frames ms))) maximum 0 small (omega (arith, few))
              (ground (arith, length-frames ms))
            ∙ ap (λ n. ok (ms, (n, []))) (omega arith))
          refl,
      refl,
      refl,
    )

push_loop_bounded :
    (f maximum decoded decoded' : ℕ) (buffer rest : Bytes) (before messages : List Bytes)
    → push_loop f maximum decoded buffer before ≡ ok (messages, (decoded', rest))
    → decoded ≤ maximum
    → (decoded' ≤ maximum) × (decoded + length messages ≡ decoded' + length before)
unfolding push_loop round
push_loop_bounded zero maximum decoded decoded' buffer rest before messages h b = ground (arith, h)
push_loop_bounded (suc f) maximum decoded decoded' buffer rest before messages h bound =
    elim (Round-cases (round maximum decoded buffer)) [
      | inl e ↦ ground (arith, e, h)
      | inr (inl (s, e)) ↦ ground (arith, e, h)
      | inr (inr (m, b, e)) ↦
          let within = round_within maximum decoded buffer m b e in
          let below =
            push_loop_bounded f maximum (decoded + 1) decoded' b rest (before ++ (m ∷ [])) messages
              (ground (arith, e, h)) (omega arith) in
          (below.0, ground (arith, below.1, length-append before (m ∷ [])))
    ]

-- A call never gets more messages than it carries: what one chunk completes is counted, and the count
-- stays within the assembler's bound.
pub push_bounded :
    (chunk : Bytes) (a a' : FrameAssembler) (ms : List Bytes)
    → push chunk a ≡ ok (ms, a')
    → a.decoded ≤ a.maximum_messages
    → (a'.decoded ≡ a.decoded + length ms) × (a'.decoded ≤ a'.maximum_messages)
push_bounded chunk a a' ms h b =
    let (h', e) = push-push_loop chunk a a' ms h in
    let below =
      push_loop_bounded (suc (length (a.buffered ++ chunk))) a.maximum_messages a.decoded a'.decoded
        (a.buffered ++ chunk) a'.buffered [] ms h' b in
    (ground (arith, below.1), ground (arith, below.0, e))
