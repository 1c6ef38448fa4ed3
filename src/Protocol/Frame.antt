-- ===== src/Protocol/Frame.antt =====
-- protocol.hpp, lines 40 to 112, 245 to 290 and 319 to 331: frames and their 48-byte header.
pub mod RoundTrip
use dan.Common.{
  ℕ, zero, suc, ◌*◌, Bool, true, false, not, ◌&&◌, ◌||◌, List, [], ◌∷◌, Bytes, ltb, leb, ◌==◌,
  if◌then◌else◌, length, replicate, get_or,
}
use dan.Protocol.Words.{put16, put32, put64, get16, get32, get64}

abbrev pub magic : ℕ
magic = 0x44414e31

abbrev pub version : ℕ
version = 2

abbrev pub header_size : ℕ
header_size = 48

abbrev pub max_payload : ℕ
max_payload = 64 * 1024 * 1024

pub data FrameType : Type 0 where
  error create_session reset_session destroy_session prompt token activation result : FrameType
  end_request ack metrics shutdown commit_token commit_activation cancel_request : FrameType
  client_result provider_available assign_stage stage_ready unload_stage : FrameType
  speculative_activation rollback prompt_chunk stream_prompt client_chunk : FrameType
  reserve release_route prepare_chat : FrameType

-- The enumerators in the order of their values, 0 to 27.
abbrev pub frame_types : List FrameType
frame_types =
    error ∷ create_session ∷ reset_session ∷ destroy_session ∷ prompt ∷ token ∷ activation ∷ result
    ∷ end_request ∷ ack ∷ metrics ∷ shutdown ∷ commit_token ∷ commit_activation ∷ cancel_request
    ∷ client_result ∷ provider_available ∷ assign_stage ∷ stage_ready ∷ unload_stage
    ∷ speculative_activation ∷ rollback ∷ prompt_chunk ∷ stream_prompt ∷ client_chunk ∷ reserve
    ∷ release_route ∷ prepare_chat ∷ []

-- `static_cast<std::uint16_t>(type)`
abbrev pub type_value : FrameType → ℕ
type_value error = 0
type_value create_session = 1
type_value reset_session = 2
type_value destroy_session = 3
type_value prompt = 4
type_value token = 5
type_value activation = 6
type_value result = 7
type_value end_request = 8
type_value ack = 9
type_value metrics = 10
type_value shutdown = 11
type_value commit_token = 12
type_value commit_activation = 13
type_value cancel_request = 14
type_value client_result = 15
type_value provider_available = 16
type_value assign_stage = 17
type_value stage_ready = 18
type_value unload_stage = 19
type_value speculative_activation = 20
type_value rollback = 21
type_value prompt_chunk = 22
type_value stream_prompt = 23
type_value client_chunk = 24
type_value reserve = 25
type_value release_route = 26
type_value prepare_chat = 27

-- `static_cast<Type>(raw_type)`, used only behind the check that `raw_type` is an enumerator.
abbrev pub type_of : ℕ → FrameType
type_of raw = get_or frame_types raw error

-- A DType is read off the wire unchecked, so besides the enumerators it takes any other 16-bit
-- value: `unnamed n` is the value n + 4.
pub data DType : Type 0 where
  none f32le f16le fp8e4m3 : DType
  unnamed : ℕ → DType

abbrev pub dtype_value : DType → ℕ
dtype_value none = 0
dtype_value f32le = 1
dtype_value f16le = 2
dtype_value fp8e4m3 = 3
dtype_value (unnamed n) = suc (suc (suc (suc n)))

abbrev pub dtype_of : ℕ → DType
dtype_of zero = none
dtype_of (suc zero) = f32le
dtype_of (suc (suc zero)) = f16le
dtype_of (suc (suc (suc zero))) = fp8e4m3
dtype_of (suc (suc (suc (suc n)))) = unnamed n

abbrev pub activation_dtype : DType → Bool
activation_dtype f32le = true
activation_dtype f16le = true
activation_dtype fp8e4m3 = true
activation_dtype _ = false

pub record Frame : Type 0 where
  pub type : FrameType
  pub session : ℕ
  pub request : ℕ
  pub position : ℕ
  pub rows : ℕ
  pub cols : ℕ
  pub dtype : DType
  pub payload : Bytes

-- `Frame{}`
abbrev pub empty_frame : Frame
empty_frame = record {
  type = error;
  session = 0;
  request = 0;
  position = 0;
  rows = 0;
  cols = 0;
  dtype = none;
  payload = [];
}

abbrev pub frame_header : Frame → Frame
frame_header frame = record empty_frame {
  type = frame.type;
  session = frame.session;
  request = frame.request;
  position = frame.position;
  rows = frame.rows;
  cols = frame.cols;
  dtype = frame.dtype;
}

pub data FrameError : Type 0 where
  payload_exceeds bad_header unknown_type : FrameError
  disconnected_sending disconnected_receiving disconnected_payload : FrameError

pub data Result {ℓ} (A : Type ℓ) : Type ℓ where
  ok : A → Result A
  err : FrameError → Result A

infixl 5 ◌>>=◌
abbrev pub ◌>>=◌ {ℓ κ} : {A : Type ℓ} {B : Type κ} → Result A → (A → Result B) → Result B
ok a >>= f = f a
err e >>= f = err e

-- `header.fill(0)` and the eight writes.
unfoldable pub header_bytes : Frame → Bytes
unfolding put16 put32 put64
header_bytes frame =
    let h0 = replicate header_size 0 in
    let h1 = put32 h0 0 magic in
    let h2 = put16 h1 4 version in
    let h3 = put16 h2 6 (type_value frame.type) in
    let h4 = put64 h3 8 frame.session in
    let h5 = put64 h4 16 frame.request in
    let h6 = put32 h5 24 frame.position in
    let h7 = put32 h6 28 frame.rows in
    let h8 = put32 h7 32 frame.cols in
    let h9 = put16 h8 36 (dtype_value frame.dtype) in put64 h9 40 (length frame.payload)

unfoldable pub encode_header : Frame → Result Bytes
encode_header frame =
    if ltb max_payload (length frame.payload) then err payload_exceeds else ok (header_bytes frame)

-- The frame is an in-out argument: `decode_header` leaves its payload alone. The result is the
-- frame and the payload size.
unfoldable pub read_fields : Bytes → Frame → Frame
read_fields header frame = record frame {
  type = type_of (get16 header 6);
  session = get64 header 8;
  request = get64 header 16;
  position = get32 header 24;
  rows = get32 header 28;
  cols = get32 header 32;
  dtype = dtype_of (get16 header 36);
}

unfoldable pub decode_header : Bytes → Frame → Result (Frame × ℕ)
decode_header header frame =
    if not (get32 header 0 == magic)
      || not (get16 header 4 == version)
      || not (get16 header 38 == 0)
    then err bad_header
    else if ltb (type_value prepare_chat) (get16 header 6)
    then err unknown_type
    else if ltb max_payload (get64 header 40)
    then err payload_exceeds
    else ok (read_fields header frame, get64 header 40)

abbrev pub error_frame : Frame → Bytes → Frame
error_frame source message = record empty_frame {
  session = source.session;
  request = source.request;
  payload = message;
}

abbrev is_empty {ℓ} : {A : Type ℓ} → List A → Bool
is_empty [] = true
is_empty (x ∷ xs) = false

abbrev pub empty_control : Frame → Bool
empty_control frame =
    frame.position == 0
    && frame.rows == 0
    && frame.cols == 0
    && dtype_value frame.dtype == 0
    && is_empty frame.payload
