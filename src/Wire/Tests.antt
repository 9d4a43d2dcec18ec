-- ===== src/Wire/Tests.antt =====
-- Runs of the codec of crates/cachebox-protocol/src/lib.rs at concrete inputs.
use cachebox.Prelude.{◌≡◌, refl, none, some, [], ◌∷◌, ◌++◌, arith, ok, length}
use cachebox.Bytes.{Bytes, Text}
use cachebox.Wire.Types.{
  Command, Metadata, octet_stream, RequestPayload, RequestFrame, BatchItem, ResponsePayload,
  ResponseFrame, command_of,
}
use cachebox.Wire.Utf8.{is_valid_namespace, is_valid_tag}
use cachebox.Wire.Encode.{be_bytes, encode_request_frame, encode_response_frame}
use cachebox.Wire.Cursor.Fields.{words, from_be-be_bytes}
use cachebox.Wire.Cursor.{from_be}
use cachebox.Wire.Decode.{decode_request_frame, decode_response_frame}
use cachebox.Wire.Agreement.{AgreesWith, decode_borrowed_request_frame-AgreesWith}
use cachebox.Wire.Borrowed.{decode_borrowed_request_frame}
use cachebox.Wire.Format.{IsRequest, request_word, response_word, item_word, metadata_word}
use cachebox.Wire.RoundTrip.{decode-encode_request_frame, decode-encode_response_frame}

abbrev ns : Text
ns = b'n' ∷ []

abbrev page : Metadata
page = record {
  ttl = some (record { milliseconds = 50 });
  stale_ttl = none;
  cost = some 2;
  tags = (b'h' ∷ []) ∷ [];
  content_type = octet_stream;
}

abbrev payload : RequestPayload
payload = RequestPayload.put ns (1 ∷ []) page (7 ∷ 8 ∷ [])

abbrev request : RequestFrame
request = record { request_id = 42; command = Command.put; payload = payload }

payload-IsRequest : IsRequest payload
unfolding is_valid_namespace is_valid_tag
payload-IsRequest = (
  (refl, omega arith),
  omega arith,
  record {
    ttl = (omega arith, omega arith);
    stale_ttl = tt;
    cost = omega arith;
    tags = ((refl, omega arith), tt);
    tag_count = omega arith;
  },
  omega arith,
)

payload_size : length (request_word payload) ≡ 49
unfolding request_word metadata_word be_bytes words
payload_size = refl

decode-encode_request_frame_example :
    (bytes : Bytes) × (encode_request_frame request ≡ some bytes)
    × (decode_request_frame (bytes ++ (b'C' ∷ [])) 1000 ≡ ok request)
unfolding command_of
decode-encode_request_frame_example =
    decode-encode_request_frame request 1000 (b'C' ∷ []) refl payload-IsRequest (omega arith)
      (omega (arith, payload_size)) (omega (arith, payload_size))

abbrev items : ResponsePayload
items = ResponsePayload.batch_get (BatchItem.hit (7 ∷ []) ∷ BatchItem.miss ∷ [])

abbrev response : ResponseFrame
response = record { request_id = 42; command = Command.batch_get; payload = items }

items_size : length (response_word items) ≡ 12
unfolding response_word item_word be_bytes words
items_size = refl

decode-encode_response_frame_example :
    (bytes : Bytes) × (encode_response_frame response ≡ some bytes)
    × (decode_response_frame (bytes ++ []) 1000 ≡ ok response)
decode-encode_response_frame_example =
    decode-encode_response_frame response 1000 [] tt ((omega arith, (tt, tt)), omega arith)
      (omega arith) (omega (arith, items_size)) (omega (arith, items_size))

-- A `get` of the key 1 in the namespace "n".
abbrev get_bytes : Bytes
get_bytes =
    b'C' ∷ b'B' ∷ b'X' ∷ b'1' ∷ 1 ∷ 0 ∷ 1 ∷ 0 ∷ 0 ∷ 0 ∷ 0 ∷ 0 ∷ 0 ∷ 0 ∷ 0 ∷ 42 ∷ 0 ∷ 0 ∷ 0 ∷ 10 ∷ 0
    ∷ 0 ∷ 0 ∷ 0 ∷ 0 ∷ 0 ∷ 0 ∷ 1 ∷ b'n' ∷ 0 ∷ 0 ∷ 0 ∷ 1 ∷ 1 ∷ []

decode_borrowed_request_frame-AgreesWith_example :
    AgreesWith get_bytes 1000
      (decode_request_frame get_bytes 1000)
      (decode_borrowed_request_frame get_bytes 1000)
decode_borrowed_request_frame-AgreesWith_example =
    decode_borrowed_request_frame-AgreesWith get_bytes 1000

from_be-be_bytes_example : from_be (be_bytes 4 258) ≡ 258
from_be-be_bytes_example = from_be-be_bytes 4 258 (omega arith)
