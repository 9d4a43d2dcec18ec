-- ===== src/Wire/RoundTrip.antt =====
-- Encoding a frame with crates/cachebox-protocol/src/lib.rs and decoding it again.
use cachebox.Prelude.{
  get_elem?, ℕ, ◌+◌, ◌-◌, ◌^◌, ◌≤◌, ◌<◌, ◌≡◌, refl, ap, true, false, some, [], ◌++◌, append-nil,
  append_assoc, arith, ltb, ◌==◌, lt→ltb, ok, length, drop, length-append, take-append, u64_max,
}
use cachebox.Bytes.{Bytes}
use cachebox.Wire.Types.{
  Command, RequestFrame, ResponseFrame, command_id, error_id, command_from_id, error_from_id,
  command_of, ErrorCode,
}
use cachebox.Wire.Cursor.{Reader, ◌>>=◌, pure, slice, from_be, new_cursor, expect_empty}
use cachebox.Wire.Cursor.Laws.{Reads}
use cachebox.Wire.Cursor.Fields.{from_be-be_bytes}
use cachebox.Wire.Encode.{
  magic, version, header_len, kind_request, kind_response, be_bytes, write_u32, write_u64,
  patch_len, frame_start, encode_frame, encode_request_payload, encode_response_payload,
  encode_request_frame, encode_response_frame,
}
use cachebox.Wire.Decode.{
  byte_at, decode_header, open_frame, whole, decode_request_payload, decode_response_payload,
  decode_request_frame, decode_response_frame,
}
use cachebox.Wire.Format.{IsRequest, IsResponse, Answers, request_word, response_word, header_word}
use cachebox.Wire.Appends.{encode_request_payload-append, encode_response_payload-append}
use cachebox.Wire.Words.{Reads-request, Reads-response}

-- A command's number gives the command back.
command_from_id-command_id : (command : Command) → command_from_id (command_id command) ≡ ok command
unfolding command_from_id command_id
command_from_id-command_id command = ground arith

error_from_id-error_id : (code : ErrorCode) → error_from_id (error_id code) ≡ ok code
unfolding error_from_id error_id
error_from_id-error_id code = ground arith

whole-word {ℓ} :
    {A : Type ℓ} (m : Reader A) (w : Bytes) (a : A)
    → Reads m w a
    → length w ≤ u64_max
    → whole m w ≡ ok a
unfolding whole ◌>>=◌ pure new_cursor expect_empty
whole-word m w a r fits =
    let read : m (record { input = w; offset = 0 })
        ≡ ok (a, record { input = w; offset = length w }) =
      rw (append-nil w) at (r.at [] [] (omega (arith, fits))) in
    let same : (length w == length w) ≡ true = ground arith in
    rw (read, whole, ◌>>=◌) (rw (same, expect_empty) refl)

patch_len-frame_start :
    (kind : ℕ) (command : Command) (request_id n : ℕ) (w : Bytes)
    → patch_len (frame_start kind command request_id ++ w) (be_bytes 4 n)
      ≡ header_word kind command request_id n ++ w
unfolding patch_len frame_start header_word be_bytes write_u32 write_u64
patch_len-frame_start kind command request_id n w = refl

-- What stands in a header, field by field.
module _ (kind : ℕ) (command : Command) (request_id n : ℕ) (w : Bytes) where
  abbrev pub Input : Bytes
  Input = header_word kind command request_id n ++ w

  pub length-header : length Input ≡ header_len + length w
  unfolding header_word be_bytes
  length-header = omega arith

  slice-magic : slice Input 0 4 ≡ magic
  unfolding header_word
  slice-magic = refl

  slice-id : slice Input 8 16 ≡ be_bytes 8 request_id
  unfolding header_word be_bytes
  slice-id = refl

  pub slice-len : slice Input 16 20 ≡ be_bytes 4 n
  unfolding header_word be_bytes
  slice-len = refl

  slice-reserved : from_be (slice Input 20 24) ≡ 0
  unfolding header_word be_bytes from_be
  slice-reserved = refl

  byte-fields :
      (byte_at Input 4 ≡ version)
      × (byte_at Input 5 ≡ kind)
      × (byte_at Input 6 ≡ command_id command)
      × (byte_at Input 7 ≡ 0)
  unfolding header_word byte_at get_elem?
  byte-fields = (refl, refl, refl, refl)

  drop-header : drop header_len Input ≡ w
  unfolding header_word be_bytes
  drop-header = refl

  decode_header-header :
      (max_payload_len : ℕ)
      → n ≤ max_payload_len
      → n < 2 ^ 32
      → request_id < 2 ^ 64
      → decode_header Input max_payload_len kind
        ≡ ok (record { command = command_id command; request_id = request_id; payload_len = n })
  unfolding decode_header
  decode_header-header max_payload_len le short id_short =
      let id_back : from_be (slice Input 8 16) ≡ request_id =
        rw slice-id (from_be-be_bytes 8 request_id id_short) in
      let len_back : from_be (slice Input 16 20) ≡ n = rw slice-len (from_be-be_bytes 4 n short) in
      ground (
        arith, length-header, slice-magic, id_back, len_back, slice-reserved, byte-fields.0,
        byte-fields.1, byte-fields.2, byte-fields.3,
      )

-- A frame is opened whatever follows it.
open_frame-header :
    (kind : ℕ) (command : Command) (request_id max_payload_len : ℕ) (w rest : Bytes)
    → length w ≤ max_payload_len
    → length w < 2 ^ 32
    → request_id < 2 ^ 64
    → open_frame
        (header_word kind command request_id (length w) ++ (w ++ rest))
        max_payload_len
        kind
      ≡ ok (
        record { command = command_id command; request_id = request_id; payload_len = length w },
        command,
        w,
      )
unfolding open_frame
open_frame-header kind command request_id max_payload_len w rest le short id_short =
    let count : header_len + length w - header_len ≡ length w = omega arith in
    let enough : ltb (header_len + length (w ++ rest)) (header_len + length w) ≡ false =
      ground (arith, length-append w rest) in
    rw
      (
        decode_header-header kind command request_id (length w) (w ++ rest) max_payload_len le short
            id_short,
        open_frame,
      )
      (rw (length-header kind command request_id (length w) (w ++ rest)) (
        rw enough (
          rw (command_from_id-command_id command) (
            rw (drop-header kind command request_id (length w) (w ++ rest))
              (rw count (rw (take-append w rest) refl))))))

encode_frame-word {ℓ} :
    {T : Type ℓ} (kind : ℕ) (command : Command) (request_id : ℕ) (payload : T)
    (encode : T → Bytes → Bytes) (w : Bytes)
    → ((out : Bytes) → encode payload out ≡ out ++ w)
    → length w < 2 ^ 32
    → encode_frame kind command request_id payload encode
      ≡ some (header_word kind command request_id (length w) ++ w)
unfolding encode_frame
encode_frame-word kind command request_id payload encode w h short =
    let start = frame_start kind command request_id in
    let count : length (start ++ w) - length start ≡ length w =
      omega (arith, length-append start w) in
    rw (h start) (
      rw count (
        rw (lt→ltb (length w) (2 ^ 32) short)
          (ap some (patch_len-frame_start kind command request_id (length w) w))))

-- A request frame whose command belongs to its payload, whose payload the wire can carry and fits the limit,
-- and whose id is a 64-bit number, is encoded to bytes that decode to the frame itself, whatever follows them.
pub decode-encode_request_frame :
    (frame : RequestFrame) (max_payload_len : ℕ) (rest : Bytes)
    → frame.command ≡ command_of frame.payload
    → IsRequest frame.payload
    → frame.request_id < 2 ^ 64
    → length (request_word frame.payload) ≤ max_payload_len
    → length (request_word frame.payload) < 2 ^ 32
    → (bytes : Bytes) × (encode_request_frame frame ≡ some bytes)
      × (decode_request_frame (bytes ++ rest) max_payload_len ≡ ok frame)
unfolding encode_request_frame decode_request_frame
decode-encode_request_frame frame max_payload_len rest e h id le short =
    let w = request_word frame.payload in
    let head = header_word kind_request frame.command frame.request_id (length w) in
    let read : whole (decode_request_payload frame.command) w ≡ ok frame.payload =
      rw e (whole-word _ w frame.payload (Reads-request frame.payload h) (omega (arith, short))) in
    (
      head ++ w,
      encode_frame-word kind_request frame.command frame.request_id frame.payload
          encode_request_payload w (λ out. encode_request_payload-append frame.payload out h) short,
      rw (append_assoc head w rest) (
          rw
            (
              open_frame-header kind_request frame.command frame.request_id max_payload_len w rest
                  le short id,
              decode_request_frame,
            )
            (rw read refl)),
    )

pub encode_response_frame_word :
    (frame : ResponseFrame)
    → IsResponse frame.payload
    → length (response_word frame.payload) < 2 ^ 32
    → encode_response_frame frame
      ≡ some (
          header_word kind_response frame.command frame.request_id
            (length (response_word frame.payload))
          ++ response_word frame.payload)
unfolding encode_response_frame
encode_response_frame_word frame h short =
    encode_frame-word kind_response frame.command frame.request_id frame.payload
      encode_response_payload (response_word frame.payload)
      (λ out. encode_response_payload-append frame.payload out h) short

-- A response frame whose payload answers its command, whose payload the wire can carry and fits the limit, and
-- whose id is a 64-bit number, is encoded to bytes that decode to the frame itself, whatever follows them.
pub decode-encode_response_frame :
    (frame : ResponseFrame) (max_payload_len : ℕ) (rest : Bytes)
    → Answers frame.command frame.payload
    → IsResponse frame.payload
    → frame.request_id < 2 ^ 64
    → length (response_word frame.payload) ≤ max_payload_len
    → length (response_word frame.payload) < 2 ^ 32
    → (bytes : Bytes) × (encode_response_frame frame ≡ some bytes)
      × (decode_response_frame (bytes ++ rest) max_payload_len ≡ ok frame)
unfolding encode_response_frame decode_response_frame
decode-encode_response_frame frame max_payload_len rest answers h id le short =
    let w = response_word frame.payload in
    let head = header_word kind_response frame.command frame.request_id (length w) in
    let read : whole (decode_response_payload frame.command) w ≡ ok frame.payload =
      whole-word _ w frame.payload (Reads-response frame.payload frame.command h answers)
        (omega (arith, short)) in
    (
      head ++ w,
      encode_frame-word kind_response frame.command frame.request_id frame.payload
          encode_response_payload w (λ out. encode_response_payload-append frame.payload out h)
          short,
      rw (append_assoc head w rest) (
          rw
            (
              open_frame-header kind_response frame.command frame.request_id max_payload_len w rest
                  le short id,
              decode_response_frame,
            )
            (rw read refl)),
    )
