-- ===== src/Protocol/Socket.antt =====
-- protocol.hpp, lines 122 to 149 and 292 to 317: whole messages over a socket that takes and gives
-- as many bytes as it likes. The system's socket is a parameter.
pub mod Stream
pub mod Sink
use dan.Common.{
  ℕ, zero, suc, ◌-◌, ◌^◌, Bool, true, false, not, List, [], ◌∷◌, ◌++◌, Option, none, some, Bytes,
  length, take, drop, min, ◌==◌, if◌then◌else◌,
}
use dan.Protocol.Frame.{
  Frame, FrameError, Result, ok, err, header_size, encode_header, decode_header,
}

-- `send` gives the number of bytes taken and `recv` the bytes received, of at most the size asked
-- for; no bytes stand for a count of 0 or below.
pub record Sockets : Type 1 where
  pub Socket : Type 0
  pub send : Socket → Bytes → Socket × ℕ
  pub recv : Socket → ℕ → Socket × Bytes

abbrev pub int_max : ℕ
int_max = 2 ^ 31 - 1

module _ (t : Sockets) where
  open t use {Socket, send, recv}

  -- The loop of `send_all`; each round sends a byte at least, so there are no more than bytes.
  unfoldable pub send_loop : ℕ → Socket → Bytes → Socket × Bool
  send_loop fuel socket [] = (socket, true)
  send_loop zero socket (b ∷ bytes) = (socket, false)
  send_loop (suc fuel) socket (b ∷ bytes) =
      let (next, count) = send socket (take int_max (b ∷ bytes)) in
      let rest = send_loop fuel next (drop count (b ∷ bytes)) in
      if count == 0 then (next, false) else rest

  unfoldable pub send_all : Socket → Bytes → Socket × Bool
  unfolding send_loop
  send_all socket bytes = send_loop (length bytes) socket bytes

  abbrev pub received : Bytes → Socket × Option Bytes → Socket × Option Bytes
  received chunk (socket, none) = (socket, none)
  received chunk (socket, some rest) = (socket, some (chunk ++ rest))

  -- The loop of `recv_all`, whose result is the buffer once it is full.
  unfoldable pub recv_loop : ℕ → Socket → ℕ → Socket × Option Bytes
  recv_loop fuel socket zero = (socket, some [])
  recv_loop zero socket (suc size) = (socket, none)
  recv_loop (suc fuel) socket (suc size) =
      let (next, chunk) = recv socket (min (suc size) int_max) in
      let rest = received chunk (recv_loop fuel next (suc size - length chunk)) in
      if length chunk == 0 then (next, none) else rest

  unfoldable pub recv_all : Socket → ℕ → Socket × Option Bytes
  unfolding recv_loop
  recv_all socket size = recv_loop size socket size

  -- The error, where there is one.
  unfoldable pub send_frame : Socket → Frame → Socket × Option FrameError
  send_frame socket frame = elim (encode_header frame) [
    | err e ↦ (socket, some e)
    | ok header ↦
        let (first, sent) = send_all socket header in
        let (second, whole) = send_all first frame.payload in
        if not sent
        then (first, some FrameError.disconnected_sending)
        else if whole
        then (second, none)
        else (second, some FrameError.disconnected_sending)
  ]

  abbrev pub with_payload : Frame → Socket × Option Bytes → Socket × Result Frame
  with_payload frame (socket, none) = (socket, err FrameError.disconnected_payload)
  with_payload frame (socket, some payload) = (socket, ok (record frame { payload = payload }))

  -- The header is in; the payload follows it.
  abbrev pub recv_payload : Socket → Result (Frame × ℕ) → Socket × Result Frame
  recv_payload socket (err e) = (socket, err e)
  recv_payload socket (ok (frame, size)) = with_payload frame (recv_all socket size)

  abbrev pub with_header : Frame → Socket × Option Bytes → Socket × Result Frame
  with_header frame (socket, none) = (socket, err FrameError.disconnected_receiving)
  with_header frame (socket, some header) = recv_payload socket (decode_header header frame)

  unfoldable pub recv_frame : Socket → Frame → Socket × Result Frame
  unfolding recv_all
  recv_frame socket frame = with_header frame (recv_all socket header_size)
