-- ===== src/Runs/Frames.antt =====
-- protocol.hpp on one frame.
use dan.Common.{
  ◌+◌, ◌^◌, ◌≡◌, ◌≤◌, ◌<◌, ◌⊎◌, refl, sym, ap, [], ◌∷◌, ◌++◌, none, some, Bytes, length,
  length-take, take, drop, min, arith,
}
use dan.Protocol.Frame.{
  FrameType, DType, Frame, FrameError, empty_frame, ok, ◌>>=◌, encode_header, decode_header,
  header_bytes, max_payload,
}
use dan.Protocol.Socket.{Sockets, send_frame, recv_frame}
use dan.Protocol.Socket.Stream.{IsStream, recv_frame_lem}
use dan.Protocol.Socket.Sink.{IsSink, take-drop, send_frame_lem}
use dan.Protocol.Frame.RoundTrip.{HasWidths, decode-encode}

abbrev one_token : Frame
one_token = record {
  type = FrameType.token;
  session = 7;
  request = 2 ^ 40 + 3;
  position = 12;
  rows = 1;
  cols = 1;
  dtype = DType.none;
  payload = 1 ∷ 2 ∷ 3 ∷ [];
}

one_token-HasWidths : HasWidths one_token
one_token-HasWidths = omega arith

decode-encode_example :
    (encode_header one_token >>= λ header. decode_header header empty_frame)
    ≡ ok (record one_token { payload = [] }, 3)
decode-encode_example = decode-encode one_token empty_frame one_token-HasWidths (omega arith)

-- A socket that gives three bytes at a time and takes two: its state is what it still holds.
abbrev cutting : Sockets
cutting = record {
  Socket = Bytes;
  send = λ s given. (s ++ take 2 given, min 2 (length given));
  recv = λ s size. (drop (min size 3) s, take (min size 3) s);
}

cutting-IsStream : IsStream cutting (λ s. s)
cutting-IsStream = record {
  some_bytes = λ s size h k. omega (arith, length-take (min size 3) s);
  no_more = λ s size. omega (arith, length-take (min size 3) s);
  in_order = λ s size. sym (take-drop (min size 3) s);
}

take-min : (given : Bytes) → take 2 given ≡ take (min 2 (length given)) given
take-min [] = refl
take-min (a ∷ []) = refl
take-min (a ∷ b ∷ given) =
    let q : min 2 (length (a ∷ b ∷ given)) ≡ 2 = omega arith in
    sym (ap (λ n. take n (a ∷ b ∷ given)) q)

cutting-IsSink : IsSink cutting (λ s. s)
cutting-IsSink = record {
  some_bytes = λ s given h. omega arith;
  no_more = λ s given. omega arith;
  in_order = λ s given. ap (λ l. s ++ l) (take-min given);
}

recv_frame_lem_example :
    (next : Bytes) × (recv_frame cutting
        (header_bytes one_token ++ (one_token.payload ++ 9 ∷ []))
        empty_frame
      ≡ (next, ok one_token))
    × (next ≡ 9 ∷ [])
recv_frame_lem_example =
    recv_frame_lem cutting (λ s. s) (header_bytes one_token ++ (one_token.payload ++ 9 ∷ []))
      one_token empty_frame (9 ∷ []) cutting-IsStream one_token-HasWidths (omega arith) refl

send_frame_lem_example :
    ((length one_token.payload ≤ max_payload)
      × (next : Bytes) × (send_frame cutting [] one_token ≡ (next, none))
      × (next ≡ [] ++ (header_bytes one_token ++ one_token.payload)))
    ⊎ ((max_payload < length one_token.payload)
        × (send_frame cutting [] one_token ≡ ([], some FrameError.payload_exceeds)))
send_frame_lem_example = send_frame_lem cutting (λ s. s) [] one_token cutting-IsSink
