-- ===== src/Team/WebSocket/Headers.antt =====
-- How much of what has arrived a frame of src/team/websocket.ts takes, and how much is waited for.
use Prim.Native.Nat.{bit_and}
use narra_leaf_team.Common.{
  ℕ, ◌+◌, ◌*◌, ◌^◌, ◌≤◌, ◌<◌, ◌≡◌, Bool, not, ◌&&◌, ◌||◌, [], ◌∷◌, arith, ltb, leb, ◌==◌, length,
  length-drop, drop, by_branches,
}
use narra_leaf_team.Data.Bytes.{Bytes}
use narra_leaf_team.Team.WebSocket.{control_payload_limit, too_large}
use narra_leaf_team.Team.WebSocket.Frames.{
  Read, incomplete, breach, frame, read_payload, read_short, read_long, read_length, read_frame,
  larger,
}

-- The most that one frame may take: its header, its mask, and a message or the payload of a control
-- frame.
abbrev pub one_frame : ℕ → ℕ
one_frame maximum = 14 + (maximum + control_payload_limit)

-- What is left behind a frame is at least six bytes less, and a frame is only waited for while less
-- than one of the largest has arrived.
abbrev pub Takes : ℕ → Bytes → ℕ → Read → Type 0
Takes maximum rest header incomplete = length rest + header < one_frame maximum
Takes maximum rest header (breach code reason) = Unit {0}
Takes maximum rest header (frame f left) = length left + 4 ≤ length rest

read_payload-Takes :
    (maximum held : ℕ) (final : Bool) (opcode size header : ℕ) (rest : Bytes)
    → header ≤ 10
    → Takes maximum rest header (read_payload maximum held final opcode size rest)
unfolding read_payload
read_payload-Takes maximum held final opcode size header rest h =
    by_branches (Takes maximum rest header)
      (leb 8 opcode && (not final || ltb control_payload_limit size)) _ _ (λ e. tt)
      (λ e1.
        by_branches (Takes maximum rest header) (not (leb 8 opcode) && ltb maximum (held + size)) _
          _ (λ e. tt)
          (λ e2.
            by_branches (Takes maximum rest header) (ltb (length rest) (4 + size)) _ _
              (λ e. ground (arith, e, e1, e2))
              (λ e. ground (arith, length-drop size (drop 4 rest), length-drop 4 rest, e))))

-- The same, seen from `k` bytes further in front.
Takes-widen :
    (maximum k header : ℕ) (front rest : Bytes) (r : Read)
    → length front ≡ length rest + k
    → Takes maximum rest (header + k) r
    → Takes maximum front header r
Takes-widen maximum k header front rest incomplete e h = omega (arith, e, h)
Takes-widen maximum k header front rest (breach code reason) e h = tt
Takes-widen maximum k header front rest (frame f left) e h = omega (arith, e, h)

read_short-Takes :
    (maximum held : ℕ) (final : Bool) (opcode : ℕ) (rest : Bytes)
    → Takes maximum rest 2 (read_short maximum held final opcode rest)
unfolding read_short
read_short-Takes maximum held final opcode [] = omega arith
read_short-Takes maximum held final opcode (a ∷ []) = omega arith
read_short-Takes maximum held final opcode (a ∷ b ∷ rest) =
    Takes-widen maximum 2 2 (a ∷ b ∷ rest) rest _ (omega arith)
      (read_payload-Takes maximum held final opcode (a * 2 ^ 8 + b) 4 rest (omega arith))

read_long-Takes :
    (maximum held : ℕ) (final : Bool) (opcode : ℕ) (rest : Bytes)
    → Takes maximum rest 2 (read_long maximum held final opcode rest)
unfolding read_long
read_long-Takes maximum held final opcode (a ∷ b ∷ c ∷ d ∷ e ∷ f ∷ g ∷ h ∷ rest) =
    let front = a ∷ b ∷ c ∷ d ∷ e ∷ f ∷ g ∷ h ∷ rest in
    let high = a * 2 ^ 56 + b * 2 ^ 48 + c * 2 ^ 40 + d * 2 ^ 32 in
    let big = high + e * 2 ^ 24 + f * 2 ^ 16 + g * 2 ^ 8 + h in
    let found = read_payload maximum held final opcode big rest in
    by_branches (Takes maximum front 2) (ltb maximum big) (breach too_large larger) found (λ h. tt)
      (λ fits.
        Takes-widen maximum 8 2 front rest found (omega arith)
          (read_payload-Takes maximum held final opcode big 10 rest (omega arith)))
read_long-Takes maximum held final opcode [] = omega arith
read_long-Takes maximum held final opcode (a ∷ []) = omega arith
read_long-Takes maximum held final opcode (a ∷ b ∷ []) = omega arith
read_long-Takes maximum held final opcode (a ∷ b ∷ c ∷ []) = omega arith
read_long-Takes maximum held final opcode (a ∷ b ∷ c ∷ d ∷ []) = omega arith
read_long-Takes maximum held final opcode (a ∷ b ∷ c ∷ d ∷ e ∷ []) = omega arith
read_long-Takes maximum held final opcode (a ∷ b ∷ c ∷ d ∷ e ∷ f ∷ []) = omega arith
read_long-Takes maximum held final opcode (a ∷ b ∷ c ∷ d ∷ e ∷ f ∷ g ∷ []) = omega arith

read_length-Takes :
    (maximum held : ℕ) (final : Bool) (opcode size : ℕ) (rest : Bytes)
    → Takes maximum rest 2 (read_length maximum held final opcode size rest)
unfolding read_length
read_length-Takes maximum held final opcode size rest =
    by_branches (Takes maximum rest 2) (size == 126) _ _
      (λ e. read_short-Takes maximum held final opcode rest)
      (λ e.
        by_branches (Takes maximum rest 2) (size == 127) _ _
          (λ e. read_long-Takes maximum held final opcode rest)
          (λ e. read_payload-Takes maximum held final opcode size 2 rest (omega arith)))

pub read_frame-Takes :
    (maximum held : ℕ) (buffer : Bytes) → Takes maximum buffer 0 (read_frame maximum held buffer)
unfolding read_frame
read_frame-Takes maximum held [] = omega arith
read_frame-Takes maximum held (a ∷ []) = omega arith
read_frame-Takes maximum held (a ∷ b ∷ rest) =
    by_branches (Takes maximum (a ∷ b ∷ rest) 0) (not (bit_and a 0x70 == 0)) _ _ (λ e. tt)
      (λ e1.
        by_branches (Takes maximum (a ∷ b ∷ rest) 0) (bit_and b 0x80 == 0) _ _ (λ e. tt)
          (λ e2. Takes-widen maximum 2 0 (a ∷ b ∷ rest) rest _ (omega arith) (
            read_length-Takes maximum held (not (bit_and a 0x80 == 0)) (bit_and a 0x0f)
              (bit_and b 0x7f) rest)))
