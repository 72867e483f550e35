-- ===== src/Chat/Voice/Relay/Opus.antt =====
-- chat/src/network/voice/server.rs: the structure of Opus packets.
use why.Common.{
  ℕ, ◌+◌, ◌*◌, ◌%◌, Bool, true, false, ◌&&◌, not, ltb, leb, ◌==◌, if◌then◌else◌, List, [], ◌∷◌,
  length,
}

-- The length of a frame, and the bytes that the length took.
unfoldable pub parse_opus_len : List ℕ → ℕ × ℕ
parse_opus_len [] = (0, 0)
parse_opus_len (b0 ∷ []) = if ltb b0 252 then (b0, 1) else (0, 0)
parse_opus_len (b0 ∷ b1 ∷ rest) = if ltb b0 252 then (b0, 1) else (b1 * 4 + b0, 2)

unfoldable pub has_frames : List ℕ → Bool
has_frames [] = false
has_frames (frame_count ∷ rest) = ltb 0 (frame_count % 64)

unfoldable pub validate_opus_packet : List ℕ → Bool
validate_opus_packet [] = false
validate_opus_packet (toc ∷ rest) =
    let framing : ℕ = toc % 4 in
    let parsed = parse_opus_len rest in
    if framing == 0
    then true
    else if framing == 1
    then length rest % 2 == 0
    else if framing == 2
    then not (parsed.1 == 0) && leb (1 + parsed.1 + parsed.0) (length (toc ∷ rest))
    else has_frames rest
