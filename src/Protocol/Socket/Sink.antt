-- ===== src/Protocol/Socket/Sink.antt =====
-- protocol.hpp, send_all and send_frame: what reaches the socket.
use dan.Common.{
  ℕ, zero, suc, ◌≤◌, ◌<◌, ◌≡◌, ◌⊎◌, inl, inr, refl, sym, ap, ◌∙◌, true, [], ◌∷◌, ◌++◌, none, some,
  Bytes, length, length-take, length-drop, take, drop, arith,
}
use mathlib.Core.List.{append_assoc, append-nil}
use dan.Protocol.Frame.{Frame, FrameError, ok, err, header_bytes, encode_header, max_payload}
use dan.Protocol.Socket.Stream.{encoded}
use dan.Protocol.Socket.{Sockets, int_max, send_loop, send_all, send_frame}

-- The socket takes some of the bytes that it is given, from the front.
pub record IsSink (t : Sockets) (sent : t.Socket → Bytes) : Type 0 where
  pub some_bytes : (s : t.Socket) (given : Bytes) → 0 < length given → 0 < (t.send s given).1
  pub no_more : (s : t.Socket) (given : Bytes) → (t.send s given).1 ≤ length given
  pub in_order :
      (s : t.Socket) (given : Bytes)
      → sent (t.send s given).0 ≡ sent s ++ take (t.send s given).1 given

take-take : (n m : ℕ) (bytes : Bytes) → n ≤ m → take n (take m bytes) ≡ take n bytes
take-take zero m bytes h = refl
take-take (suc n) zero bytes h = absurd (omega arith)
take-take (suc n) (suc m) [] h = refl
take-take (suc n) (suc m) (b ∷ bytes) h = ap (λ l. b ∷ l) (take-take n m bytes (omega arith))

pub take-drop : (n : ℕ) (bytes : Bytes) → take n bytes ++ drop n bytes ≡ bytes
take-drop zero bytes = refl
take-drop (suc n) [] = refl
take-drop (suc n) (b ∷ bytes) = ap (λ l. b ∷ l) (take-drop n bytes)

send_loop_lem :
    (t : Sockets) (sent : t.Socket → Bytes)
    → IsSink t sent
    → (fuel : ℕ) (s : t.Socket) (bytes : Bytes) → length bytes ≤ fuel
    → (next : t.Socket) × (send_loop t fuel s bytes ≡ (next, true)) × (sent next ≡ sent s ++ bytes)
unfolding send_loop
send_loop_lem t sent sink fuel s [] low = (s, refl, sym (append-nil (sent s)))
send_loop_lem t sent sink zero s (b ∷ bytes) low = absurd (omega arith)
send_loop_lem t sent sink (suc fuel) s (b ∷ bytes) low =
    let given = take int_max (b ∷ bytes) in
    let count = (t.send s given).1 in
    let middle = (t.send s given).0 in
    let size = length-take int_max (b ∷ bytes) in
    let least = sink.some_bytes s given (omega arith) in
    let most = sink.no_more s given in
    let (next, q, f) =
      send_loop_lem t sent sink fuel middle (drop count (b ∷ bytes))
        (omega (arith, length-drop count (b ∷ bytes))) in
    let in_front : take count given ≡ take count (b ∷ bytes) =
      take-take count int_max (b ∷ bytes) (omega arith) in
    (
      next,
      ground (arith, least, q),
      f
          ∙ ap (λ l. l ++ drop count (b ∷ bytes))
              (sink.in_order s given ∙ ap (λ l. sent s ++ l) in_front)
          ∙ append_assoc (sent s) (take count (b ∷ bytes)) (drop count (b ∷ bytes))
          ∙ ap (λ l. sent s ++ l) (take-drop count (b ∷ bytes)),
    )

refused :
    (frame : Frame)
    → max_payload < length frame.payload
    → encode_header frame ≡ err FrameError.payload_exceeds
unfolding encode_header
refused frame h = ground arith

send_frame_ok :
    (t : Sockets) (s first last : t.Socket) (frame : Frame) (header : Bytes)
    → encode_header frame ≡ ok header
    → send_all t s header ≡ (first, true)
    → send_all t first frame.payload ≡ (last, true)
    → send_frame t s frame ≡ (last, none)
unfolding send_frame
send_frame_ok t s first last frame header e q r = rw (send_frame, e, q, r) refl

send_frame_err :
    (t : Sockets) (s : t.Socket) (frame : Frame)
    → encode_header frame ≡ err FrameError.payload_exceeds
    → send_frame t s frame ≡ (s, some FrameError.payload_exceeds)
unfolding send_frame
send_frame_err t s frame e = rw (send_frame, e) refl

-- Over a socket that takes bytes in order, as few at a time as it likes, `send_frame` of a payload
-- within 64 MiB sends the header and then the payload, and one of a larger payload sends nothing and
-- says so.
pub send_frame_lem :
    (t : Sockets) (sent : t.Socket → Bytes) (s : t.Socket) (frame : Frame)
    → IsSink t sent
    → ((length frame.payload ≤ max_payload)
        × (next : t.Socket) × (send_frame t s frame ≡ (next, none))
        × (sent next ≡ sent s ++ (header_bytes frame ++ frame.payload)))
      ⊎ ((max_payload < length frame.payload)
          × (send_frame t s frame ≡ (s, some FrameError.payload_exceeds)))
unfolding send_all
send_frame_lem t sent s frame sink = elim (small_or_large (length frame.payload)) [
  | inr large ↦ inr (large, send_frame_err t s frame (refused frame large))
  | inl small ↦
      let (first, q, f) =
        send_loop_lem t sent sink (length (header_bytes frame)) s (header_bytes frame)
          (omega arith) in
      let (last, r, g) =
        send_loop_lem t sent sink (length frame.payload) first frame.payload (omega arith) in
      inl (
        small,
        last,
        send_frame_ok t s first last frame (header_bytes frame) (encoded frame small) q r,
        g
            ∙ ap (λ l. l ++ frame.payload) f
            ∙ append_assoc (sent s) (header_bytes frame) frame.payload,
      )
]
  where
    small_or_large : (n : ℕ) → (n ≤ max_payload) ⊎ (max_payload < n)
    small_or_large n = omega arith
