-- ===== src/Grpc/Framing/Rounds.antt =====
-- The rounds of the loop of `push` of src/grpc/framing.ts.
use narra_leaf_team.Common.{
  ℕ, zero, suc, ◌+◌, ◌<◌, ◌≡◌, ◌≢◌, refl, sym, subst, ◌∙◌, arith, List, [], ◌∷◌, ◌++◌, ◌⊎◌, inl,
  inr, append_assoc, length, length-append, length-drop, take-append_le, drop-append_le,
}
use narra_leaf_team.Data.Bytes.{Bytes, read_uint32_be}
use narra_leaf_team.Grpc.Framing.{
  GrpcStatus, out_of_fuel, ok, err, Round, more_needed, refused, whole, round, push_loop,
}

-- A message is taken off the front of the buffer, so that the loop comes to an end.
round_shorter :
    (maximum decoded : ℕ) (buffer message rest : Bytes)
    → round maximum decoded buffer ≡ whole message rest
    → length rest < length buffer
unfolding round
round_shorter maximum decoded (c ∷ a ∷ b ∷ d ∷ e ∷ body) message rest h =
    ground (arith, length-drop (read_uint32_be a b d e) body)
round_shorter maximum decoded [] message rest h = ground (arith, h)
round_shorter maximum decoded (c ∷ []) message rest h = ground (arith, h)
round_shorter maximum decoded (c ∷ a ∷ []) message rest h = ground (arith, h)
round_shorter maximum decoded (c ∷ a ∷ b ∷ []) message rest h = ground (arith, h)
round_shorter maximum decoded (c ∷ a ∷ b ∷ d ∷ []) message rest h = ground (arith, h)

-- A message is only taken while the call may carry one more.
pub round_within :
    (maximum decoded : ℕ) (buffer message rest : Bytes)
    → round maximum decoded buffer ≡ whole message rest
    → decoded < maximum
unfolding round
round_within maximum decoded (c ∷ a ∷ b ∷ d ∷ e ∷ body) message rest h = ground (arith, h)
round_within maximum decoded [] message rest h = ground (arith, h)
round_within maximum decoded (c ∷ []) message rest h = ground (arith, h)
round_within maximum decoded (c ∷ a ∷ []) message rest h = ground (arith, h)
round_within maximum decoded (c ∷ a ∷ b ∷ []) message rest h = ground (arith, h)
round_within maximum decoded (c ∷ a ∷ b ∷ d ∷ []) message rest h = ground (arith, h)

-- Bytes behind a whole message wait behind it.
round-append :
    (maximum decoded : ℕ) (buffer message rest chunk : Bytes)
    → round maximum decoded buffer ≡ whole message rest
    → round maximum decoded (buffer ++ chunk) ≡ whole message (rest ++ chunk)
unfolding round
round-append maximum decoded (c ∷ a ∷ b ∷ d ∷ e ∷ body) message rest chunk h =
    let size = read_uint32_be a b d e in
    ground (
      arith,
      length-append body chunk,
      take-append_le size body chunk,
      drop-append_le size body chunk,
    )
round-append maximum decoded [] message rest chunk h = ground (arith, h)
round-append maximum decoded (c ∷ []) message rest chunk h = ground (arith, h)
round-append maximum decoded (c ∷ a ∷ []) message rest chunk h = ground (arith, h)
round-append maximum decoded (c ∷ a ∷ b ∷ []) message rest chunk h = ground (arith, h)
round-append maximum decoded (c ∷ a ∷ b ∷ d ∷ []) message rest chunk h = ground (arith, h)

pub Round-cases :
    (r : Round)
    → (r ≡ more_needed)
      ⊎ (((s : GrpcStatus) × (r ≡ refused s)) ⊎ ((m : Bytes) × (b : Bytes) × (r ≡ whole m b)))
Round-cases more_needed = inl refl
Round-cases (refused s) = inr (inl (s, refl))
Round-cases (whole m b) = inr (inr (m, b, refl))

-- One round of the loop that finds a whole message, and one that does not.
pub push_loop_whole :
    (f maximum decoded : ℕ) (buffer m b : Bytes) (messages : List Bytes)
    → round maximum decoded buffer ≡ whole m b
    → push_loop (suc f) maximum decoded buffer messages
      ≡ push_loop f maximum (decoded + 1) b (messages ++ (m ∷ []))
unfolding push_loop
push_loop_whole f maximum decoded buffer m b messages e = ground (arith, e)

push_loop_more :
    (f maximum decoded : ℕ) (buffer : Bytes) (messages : List Bytes)
    → round maximum decoded buffer ≡ more_needed
    → push_loop (suc f) maximum decoded buffer messages ≡ ok (messages, (decoded, buffer))
unfolding push_loop
push_loop_more f maximum decoded buffer messages e = ground (arith, e)

-- Any two bounds above the length of the buffer give one outcome, and it is none of running out.
pub push_loop_agree :
    (f g maximum decoded : ℕ) (buffer : Bytes) (messages : List Bytes)
    → length buffer < f
    → length buffer < g
    → push_loop f maximum decoded buffer messages ≡ push_loop g maximum decoded buffer messages
unfolding push_loop
push_loop_agree zero g maximum decoded buffer messages hf hg = absurd (omega arith)
push_loop_agree (suc f) zero maximum decoded buffer messages hf hg = absurd (omega arith)
push_loop_agree (suc f) (suc g) maximum decoded buffer messages hf hg =
    elim (Round-cases (round maximum decoded buffer)) [
      | inl e ↦ ground (arith, e)
      | inr (inl (s, e)) ↦ ground (arith, e)
      | inr (inr (m, b, e)) ↦
          let less = round_shorter maximum decoded buffer m b e in
          push_loop_whole f maximum decoded buffer m b messages e
          ∙ push_loop_agree f g maximum (decoded + 1) b (messages ++ (m ∷ [])) (omega arith)
              (omega arith)
          ∙ sym (push_loop_whole g maximum decoded buffer m b messages e)
    ]

round_in_fuel :
    (maximum decoded : ℕ) (buffer : Bytes) → round maximum decoded buffer ≢ refused out_of_fuel
unfolding round
round_in_fuel maximum decoded (c ∷ a ∷ b ∷ d ∷ e ∷ body) h = ground (arith, h)
round_in_fuel maximum decoded [] h = ground (arith, h)
round_in_fuel maximum decoded (c ∷ []) h = ground (arith, h)
round_in_fuel maximum decoded (c ∷ a ∷ []) h = ground (arith, h)
round_in_fuel maximum decoded (c ∷ a ∷ b ∷ []) h = ground (arith, h)
round_in_fuel maximum decoded (c ∷ a ∷ b ∷ d ∷ []) h = ground (arith, h)

pub push_loop_in_fuel :
    (f maximum decoded : ℕ) (buffer : Bytes) (messages : List Bytes)
    → length buffer < f
    → push_loop f maximum decoded buffer messages ≢ err out_of_fuel
unfolding push_loop
push_loop_in_fuel zero maximum decoded buffer messages hf h = absurd (omega arith)
push_loop_in_fuel (suc f) maximum decoded buffer messages hf h =
    elim (Round-cases (round maximum decoded buffer)) [
      | inl e ↦ ground (arith, e, h)
      | inr (inl (s, e)) ↦ ground (arith, e, h, round_in_fuel maximum decoded buffer)
      | inr (inr (m, b, e)) ↦
          let less = round_shorter maximum decoded buffer m b e in
          push_loop_in_fuel f maximum (decoded + 1) b (messages ++ (m ∷ [])) (omega arith)
            (ground (arith, e, h))
    ]

-- The loop goes on where it stopped once more bytes are behind what it left.
pub push_loop-append :
    (f g maximum decoded decoded' : ℕ) (buffer rest chunk : Bytes) (messages messages' : List Bytes)
    (r : List Bytes × (ℕ × Bytes))
    → push_loop f maximum decoded buffer messages ≡ ok (messages', (decoded', rest))
    → push_loop g maximum decoded' (rest ++ chunk) messages' ≡ ok r
    → length rest + length chunk < g
    → push_loop (f + g) maximum decoded (buffer ++ chunk) messages ≡ ok r
unfolding push_loop
push_loop-append zero g maximum decoded decoded' buffer rest chunk messages messages' r h k l =
    ground (arith, h)
push_loop-append (suc f) g maximum decoded decoded' buffer rest chunk messages messages' r h k l =
    let goal : ℕ → Type 0 = λ n. push_loop n maximum decoded (buffer ++ chunk) messages ≡ ok r in
    let shift : suc (f + g) ≡ suc f + g = omega arith in
    subst goal shift (elim (Round-cases (round maximum decoded buffer)) [
      | inl e ↦
          let same = sym (push_loop_more f maximum decoded buffer messages e) ∙ h in
          let left : buffer ≡ rest = ground (arith, same) in
          let size = length-append buffer chunk in
          push_loop_agree (suc (f + g)) g maximum decoded (buffer ++ chunk) messages
            (ground (arith, size, left)) (ground (arith, size, left))
          ∙ ground (arith, k, same)
      | inr (inl (s, e)) ↦ ground (arith, e, h)
      | inr (inr (m, b, e)) ↦
          push_loop_whole (f + g) maximum decoded (buffer ++ chunk) m (b ++ chunk) messages
            (round-append maximum decoded buffer m b chunk e)
          ∙ push_loop-append f g maximum (decoded + 1) decoded' b rest chunk (messages ++ (m ∷ []))
              messages' r (ground (arith, e, h)) k l
    ])

-- What was found before is only carried along, in front of what is found next.
pub push_loop-carried :
    (f maximum decoded : ℕ) (buffer : Bytes) (before messages all : List Bytes) (left : ℕ × Bytes)
    → push_loop f maximum decoded buffer messages ≡ ok (all, left)
    → push_loop f maximum decoded buffer (before ++ messages) ≡ ok (before ++ all, left)
unfolding push_loop
push_loop-carried zero maximum decoded buffer before messages all left h = ground (arith, h)
push_loop-carried (suc f) maximum decoded buffer before messages all left h =
    elim (Round-cases (round maximum decoded buffer)) [
      | inl e ↦ ground (arith, e, h)
      | inr (inl (s, e)) ↦ ground (arith, e, h)
      | inr (inr (m, b, e)) ↦
          push_loop_whole f maximum decoded buffer m b (before ++ messages) e
          ∙ ground (arith, append_assoc before messages (m ∷ []))
          ∙ push_loop-carried f maximum (decoded + 1) b before (messages ++ (m ∷ [])) all left
              (ground (arith, e, h))
    ]
