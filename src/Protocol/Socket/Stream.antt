-- ===== src/Protocol/Socket/Stream.antt =====
-- protocol.hpp, send_frame and recv_frame: over a socket that carries bytes in order, however it cuts
-- them up, a frame arrives as it was sent.
use dan.Common.{
  ℕ, zero, suc, ◌+◌, ◌-◌, ◌≤◌, ◌<◌, ◌≡◌, refl, sym, ap, ◌∙◌, [], ◌∷◌, ◌++◌, some, Bytes, length,
  length-append, min, arith,
}
use dan.Protocol.Words.{put16, put32, put64, put64_loop}
use dan.Protocol.Frame.{
  Frame, ok, ◌>>=◌, header_bytes, encode_header, decode_header, header_size, max_payload,
}
use dan.Protocol.Frame.RoundTrip.{HasWidths, decode-encode}
use dan.Protocol.Socket.{Sockets, int_max, recv_loop, recv_all, recv_frame}

-- The socket as a stream: `recv` on bytes that have arrived or will arrive gives some of them, from the
-- front, and no more than asked for.
pub record IsStream (t : Sockets) (incoming : t.Socket → Bytes) : Type 0 where
  pub some_bytes :
      (s : t.Socket) (size : ℕ) → 0 < size → 0 < length (incoming s) → 0 < length (t.recv s size).1
  pub no_more : (s : t.Socket) (size : ℕ) → length (t.recv s size).1 ≤ size
  pub in_order :
      (s : t.Socket) (size : ℕ) → incoming s ≡ (t.recv s size).1 ++ incoming (t.recv s size).0

-- Two ways to cut one text, the first no later than the second.
split_front :
    (chunk after bytes rest : Bytes)
    → chunk ++ after ≡ bytes ++ rest
    → length chunk ≤ length bytes
    → (tail : Bytes) × (bytes ≡ chunk ++ tail) × (after ≡ tail ++ rest)
split_front [] after bytes rest h l = (bytes, refl, h)
split_front (x ∷ chunk) after [] rest h l = absurd (omega arith)
split_front (x ∷ chunk) after (y ∷ bytes) rest h l =
    let head : x ≡ y = cc in
    let same : chunk ++ after ≡ bytes ++ rest = cc in
    let (tail, e, f) = split_front chunk after bytes rest same (omega arith) in (tail, cc, f)

recv_loop_lem :
    (t : Sockets) (incoming : t.Socket → Bytes)
    → IsStream t incoming
    → (fuel size : ℕ) (s : t.Socket) (bytes rest : Bytes) → size ≤ fuel
    → length bytes ≡ size
    → incoming s ≡ bytes ++ rest
    → (next : t.Socket) × (recv_loop t fuel s size ≡ (next, some bytes)) × (incoming next ≡ rest)
unfolding recv_loop
recv_loop_lem t incoming stream fuel zero s [] rest low counted e = (s, refl, e)
recv_loop_lem t incoming stream fuel zero s (b ∷ bytes) rest low counted e = absurd (omega arith)
recv_loop_lem t incoming stream zero (suc size) s bytes rest low counted e = absurd (omega arith)
recv_loop_lem t incoming stream (suc fuel) (suc size) s bytes rest low counted e =
    let n = min (suc size) int_max in
    let next = (t.recv s n).0 in
    let chunk = (t.recv s n).1 in
    let all_there : length (incoming s) ≡ length bytes + length rest =
      ap length e ∙ length-append bytes rest in
    let most = stream.no_more s n in
    let least = stream.some_bytes s n (omega arith) (omega arith) in
    let (tail, cut, behind) =
      split_front chunk (incoming next) bytes rest (sym (stream.in_order s n) ∙ e) (omega arith) in
    let parts : length bytes ≡ length chunk + length tail =
      ap length cut ∙ length-append chunk tail in
    let (last, q, f) =
      recv_loop_lem t incoming stream fuel (suc size - length chunk) next tail rest (omega arith)
        (omega arith) behind in
    (last, ground (arith, least, q, sym cut), f)

recv_all_lem :
    (t : Sockets) (incoming : t.Socket → Bytes)
    → IsStream t incoming
    → (size : ℕ) (s : t.Socket) (bytes rest : Bytes) → length bytes ≡ size
    → incoming s ≡ bytes ++ rest
    → (next : t.Socket) × (recv_all t s size ≡ (next, some bytes)) × (incoming next ≡ rest)
unfolding recv_all
recv_all_lem t incoming stream size s bytes rest counted e =
    recv_loop_lem t incoming stream size size s bytes rest (omega arith) counted e

length-header_bytes : (frame : Frame) → length (header_bytes frame) ≡ header_size
unfolding header_bytes put16 put32 put64 put64_loop
length-header_bytes frame = refl

pub encoded :
    (frame : Frame)
    → length frame.payload ≤ max_payload
    → encode_header frame ≡ ok (header_bytes frame)
unfolding encode_header
encoded frame h = ground arith

decoded :
    (frame other : Frame)
    → HasWidths frame
    → length frame.payload ≤ max_payload
    → decode_header (header_bytes frame) other
      ≡ ok (record frame { payload = other.payload }, length frame.payload)
decoded frame other w h =
    sym (ap (λ r. r >>= λ header. decode_header header other) (encoded frame h))
    ∙ decode-encode frame other w h

-- Over a socket that carries bytes in order and cuts them up as it likes, `recv_frame` reads a frame
-- whose fields have their C++ widths and whose payload is within 64 MiB from the bytes of its header
-- and its payload, and leaves what follows them for the next call.
pub recv_frame_lem :
    (t : Sockets) (incoming : t.Socket → Bytes) (s : t.Socket) (frame other : Frame) (rest : Bytes)
    → IsStream t incoming
    → HasWidths frame
    → length frame.payload ≤ max_payload
    → incoming s ≡ header_bytes frame ++ (frame.payload ++ rest)
    → (next : t.Socket) × (recv_frame t s other ≡ (next, ok frame)) × (incoming next ≡ rest)
unfolding recv_frame
recv_frame_lem t incoming s frame other rest stream w h e =
    let (middle, q, f) =
      recv_all_lem t incoming stream header_size s (header_bytes frame) (frame.payload ++ rest)
        (length-header_bytes frame) e in
    let (last, r, g) =
      recv_all_lem t incoming stream (length frame.payload) middle frame.payload rest refl f in
    (last, rw (q, decoded frame other w h, r) refl, g)
