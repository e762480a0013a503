-- ===== src/Buffers/Serializer.antt =====
-- volga/streaming/runtime/network_deprecated/buffer/serialization/buffer_serializer.py, with
-- byte_utils.py and the layout of buffer.py: a padded channel id, the buffer's id, the size of the
-- payload, and for each message its id, its size and its bytes. A text is a list of ASCII codes.
pub mod Layout
use mathlib.Core.List.{reverse}
use volga.Prelude.{
  ℕ, zero, suc, ◌+◌, ◌-◌, ◌==◌, Bool, true, false, ◌&&◌, ◌||◌, Option, none, some, List, [], ◌∷◌,
  ◌++◌, map, take, drop, replicate, length, Result, ok, raised, ◌>>=◌, if◌then◌else◌, ltb, leb,
}
use volga.Buffers.Varint.{Bytes, encode_int, decode_bytes}

abbrev pub Text : Type 0
Text = List ℕ

abbrev pub channel_id_header_length : ℕ
channel_id_header_length = 16

unfoldable pub str_to_bytes : Text → Option ℕ → Result Bytes
str_to_bytes s none = ok s
str_to_bytes s (some pad_to_size) =
    if ltb pad_to_size (length s) then raised else ok (s ++ replicate (pad_to_size - length s) b' ')

-- What `str.strip` takes away of ASCII.
unfoldable pub is_space : ℕ → Bool
is_space c = (leb 9 c && leb c 13) || (leb 28 c && leb c 32)

unfoldable pub lstrip : Text → Text
lstrip [] = []
lstrip (c ∷ s) = if is_space c then lstrip s else c ∷ s

unfoldable pub strip : Text → Text
unfolding is_space lstrip
strip s = reverse (lstrip (reverse (lstrip s)))

unfoldable pub bytes_to_str : Bytes → Bool → Text
bytes_to_str b strip_padding = if strip_padding then strip b else b

unfoldable pub serialize_msg_bytes : Text → ℕ → Bytes → ℕ → ℕ → Bool → Result Bytes
serialize_msg_bytes channel_id buffer_id msg_bytes msg_id buffer_size with_header =
    let msg_id_bytes = encode_int msg_id in
    let msg_size_bytes = encode_int (length msg_bytes) in
    let payload_size = length msg_id_bytes + length msg_size_bytes + length msg_bytes in
    let buffer_id_bytes = encode_int buffer_id in
    let payload_size_bytes = encode_int payload_size in
    let size =
      length msg_bytes
      + channel_id_header_length
      + length buffer_id_bytes
      + length payload_size_bytes
      + length msg_id_bytes
      + length msg_size_bytes in
    let with_channel : Result Bytes = (do
      channel_id_bytes ← str_to_bytes channel_id (some channel_id_header_length)
      if ltb buffer_size size
          then raised
          else ok (
              channel_id_bytes
              ++ (buffer_id_bytes
                  ++ (payload_size_bytes ++ (msg_id_bytes ++ (msg_size_bytes ++ msg_bytes)))))) in
    if with_header then with_channel else ok (msg_id_bytes ++ (msg_size_bytes ++ msg_bytes))

unfoldable pub get_channel_id : Bytes → Text
unfolding bytes_to_str
get_channel_id buffer = bytes_to_str (take channel_id_header_length buffer) true

-- `get_buffer_id(buffer, return_offset=True)`
unfoldable pub get_buffer_id_and_offset : Bytes → Result (ℕ × ℕ)
get_buffer_id_and_offset buffer = decode_bytes buffer channel_id_header_length

unfoldable pub get_buffer_id : Bytes → Result ℕ
unfolding get_buffer_id_and_offset
get_buffer_id buffer = do (res, offset) ← get_buffer_id_and_offset buffer; ok res

unfoldable pub get_payload_size : Bytes → Result (ℕ × ℕ)
get_payload_size buffer = do
  (buffer_id, offset) ← get_buffer_id_and_offset buffer
  decode_bytes buffer offset

-- Each round reads two bytes at least, so as many rounds as there are bytes left are enough.
unfoldable pub read_messages : ℕ → Bytes → ℕ → ℕ → List (ℕ × Bytes) → Result (List (ℕ × Bytes))
read_messages zero buffer offset payload_end res = ok res
read_messages (suc rounds) buffer offset payload_end res =
    let rest : Result (List (ℕ × Bytes)) = (do
      (msg_id, at_size) ← decode_bytes buffer offset
      (msg_size, at_msg) ← decode_bytes buffer at_size
      let msg_payload_bytes = take msg_size (drop at_msg buffer)
      read_messages rounds buffer (at_msg + msg_size) payload_end
          (res ++ (msg_id, msg_payload_bytes) ∷ [])) in
    if ltb offset payload_end then rest else ok res

unfoldable pub get_payload : Bytes → Result (List (ℕ × Bytes))
unfolding get_payload_size read_messages
get_payload buffer = do
  (payload_size, offset) ← get_payload_size buffer
  read_messages payload_size buffer offset (offset + payload_size) []

unfoldable pub append_msg_bytes : Bytes → Bytes → ℕ → Result Bytes
append_msg_bytes buffer payload buffer_size =
    if ltb buffer_size (length buffer + length payload) then raised else do
      (buffer_id, old_start) ← get_buffer_id_and_offset buffer
      (payload_size, old_end) ← get_payload_size buffer
      ok (
          take old_start buffer
          ++ (encode_int (payload_size + length payload) ++ (drop old_end buffer ++ payload)))

-- A serializer of the messages; `JSONBufferSerializer` is orjson's.
pub record Codec (M : Type 0) : Type 0 where
  pub msg_to_bytes : M → Bytes
  pub bytes_to_msg : Bytes → M

module _ {M : Type 0} (codec : Codec M) where
  unfoldable pub serialize_msg : Text → ℕ → M → ℕ → ℕ → Bool → Result Bytes
  serialize_msg channel_id buffer_id msg msg_id buffer_size with_header =
      serialize_msg_bytes channel_id buffer_id (codec.msg_to_bytes msg) msg_id buffer_size
        with_header

  unfoldable pub deser : Bytes → Result (List M)
  deser buffer = do
    payload ← get_payload buffer
    ok (map (λ ((msg_id, msg) : ℕ × Bytes). codec.bytes_to_msg msg) payload)
