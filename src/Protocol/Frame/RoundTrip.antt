-- ===== src/Protocol/Frame/RoundTrip.antt =====
-- protocol.hpp, encode_header and decode_header: what one writes the other reads back.
use dan.Common.{◌^◌, ◌≤◌, ◌<◌, ◌≡◌, refl, ap, ◌∙◌, length, arith}
use dan.Protocol.Words.Inverse.{join16, join32, join64}
use dan.Protocol.Words.{get16, get32, get64}
use dan.Protocol.Frame.{
  FrameType, DType, Frame, ok, ◌>>=◌, magic, version, max_payload, type_value, type_of, dtype_value,
  dtype_of, header_bytes, encode_header, read_fields, decode_header, header_size,
}

-- The widths that the C++ types of the fields give.
pub record HasWidths (frame : Frame) : Type 0 where
  pub session_u64 : frame.session < 2 ^ 64
  pub request_u64 : frame.request < 2 ^ 64
  pub position_u32 : frame.position < 2 ^ 32
  pub rows_u32 : frame.rows < 2 ^ 32
  pub cols_u32 : frame.cols < 2 ^ 32
  pub dtype_u16 : dtype_value frame.dtype < 2 ^ 16

pub type_value-lt : (t : FrameType) → type_value t < 28
type_value-lt FrameType.error = omega arith
type_value-lt _ = omega arith

pub type_of-type_value : (t : FrameType) → type_of (type_value t) ≡ t
type_of-type_value FrameType.error = refl
type_of-type_value _ = refl

pub dtype_of-dtype_value : (d : DType) → dtype_of (dtype_value d) ≡ d
dtype_of-dtype_value DType.none = refl
dtype_of-dtype_value _ = refl

pub length-header_bytes : (frame : Frame) → length (header_bytes frame) ≡ header_size
unfolding header_bytes
length-header_bytes frame = refl

module _ (frame : Frame) where
  get_magic : get32 (header_bytes frame) 0 ≡ magic
  unfolding header_bytes get32
  get_magic = refl

  get_version : get16 (header_bytes frame) 4 ≡ version
  unfolding header_bytes get16
  get_version = refl

  get_padding : get16 (header_bytes frame) 38 ≡ 0
  unfolding header_bytes get16
  get_padding = refl

  get_type : get16 (header_bytes frame) 6 ≡ type_value frame.type
  unfolding header_bytes get16
  get_type = join16 (type_value frame.type) (omega (arith, type_value-lt frame.type))

  module _ (w : HasWidths frame) where
    get_session : get64 (header_bytes frame) 8 ≡ frame.session
    unfolding header_bytes get64
    get_session = join64 frame.session w.session_u64

    get_request : get64 (header_bytes frame) 16 ≡ frame.request
    unfolding header_bytes get64
    get_request = join64 frame.request w.request_u64

    get_position : get32 (header_bytes frame) 24 ≡ frame.position
    unfolding header_bytes get32
    get_position = join32 frame.position w.position_u32

    get_rows : get32 (header_bytes frame) 28 ≡ frame.rows
    unfolding header_bytes get32
    get_rows = join32 frame.rows w.rows_u32

    get_cols : get32 (header_bytes frame) 32 ≡ frame.cols
    unfolding header_bytes get32
    get_cols = join32 frame.cols w.cols_u32

    get_dtype : get16 (header_bytes frame) 36 ≡ dtype_value frame.dtype
    unfolding header_bytes get16
    get_dtype = join16 (dtype_value frame.dtype) w.dtype_u16

    read_fields_lem :
        (other : Frame)
        → read_fields (header_bytes frame) other ≡ record frame { payload = other.payload }
    unfolding read_fields
    read_fields_lem other = λ i. record {
      type = (ap type_of get_type ∙ type_of-type_value frame.type) i;
      session = get_session i;
      request = get_request i;
      position = get_position i;
      rows = get_rows i;
      cols = get_cols i;
      dtype = (ap dtype_of get_dtype ∙ dtype_of-dtype_value frame.dtype) i;
      payload = other.payload;
    }

  get_size : length frame.payload < 2 ^ 64 → get64 (header_bytes frame) 40 ≡ length frame.payload
  unfolding header_bytes get64
  get_size h = join64 (length frame.payload) h

-- A frame whose fields have their C++ widths and whose payload is within 64 MiB is encoded, into
-- 48 bytes from which `decode_header` reads back every field and the payload size, and leaves the
-- payload of the frame it fills alone.
pub decode-encode :
    (frame other : Frame)
    → HasWidths frame
    → length frame.payload ≤ max_payload
    → (encode_header frame >>= λ header. decode_header header other)
      ≡ ok (record frame { payload = other.payload }, length frame.payload)
unfolding encode_header decode_header
decode-encode frame other w h = ground (
  arith,
  get_magic frame,
  get_version frame,
  get_padding frame,
  get_type frame,
  type_value-lt frame.type,
  get_size frame (omega arith),
  read_fields_lem frame w other,
)
