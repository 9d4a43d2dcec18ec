-- ===== src/Client/Reading.antt =====
-- Reading frames from a stream with clients/rust/cachebox-client/src/lib.rs gives what was encoded into it.
use cachebox.Prelude.{
  ℕ, ◌^◌, ◌≤◌, ◌<◌, ◌≡◌, refl, sym, ap, ◌∙◌, false, some, [], ◌++◌, append-nil, append_assoc, arith,
  ltb, ok, length, length-append, take-append, drop-append,
}
use mathlib.Core.Option.{some-injective}
use cachebox.Bytes.{Bytes}
use cachebox.Wire.Types.{ResponseFrame}
use cachebox.Wire.Cursor.{slice, from_be}
use cachebox.Wire.Cursor.Fields.{from_be-be_bytes}
use cachebox.Wire.Encode.{header_len, kind_response, encode_response_frame}
use cachebox.Wire.Decode.{decode_response_frame}
use cachebox.Wire.Format.{IsResponse, Answers, response_word, header_word}
use cachebox.Wire.RoundTrip.{
  decode-encode_response_frame, encode_response_frame_word, length-header, slice-len,
}
use cachebox.Client.Stream.{NativeClient, Call, ◌>>=◌, read_exact, decoded, read_response_frame}

-- A response that the wire can carry to a client with this limit.
pub record IsFrame (max_payload_len : ℕ) (frame : ResponseFrame) : Type 0 where
  pub answers : Answers frame.command frame.payload
  pub payload : IsResponse frame.payload
  pub id : frame.request_id < 2 ^ 64
  pub fits : length (response_word frame.payload) ≤ max_payload_len
  pub short : length (response_word frame.payload) < 2 ^ 32

-- The client after it has read.
abbrev pub with_input : Bytes → NativeClient → NativeClient
with_input input c = record c { stream = record c.stream { input = input } }

read_exact-append :
    (xs ys : Bytes) (n : ℕ) (c : NativeClient)
    → length xs ≡ n
    → read_exact n (with_input (xs ++ ys) c) ≡ (with_input ys c, ok xs)
unfolding read_exact
read_exact-append xs ys n c h =
    let enough : ltb (length (xs ++ ys)) n ≡ false = ground (arith, h, length-append xs ys) in
    rw enough (rw (sym h) (rw (take-append xs ys) (rw (drop-append xs ys) refl)))

pub bind_ok :
    {A B : Type 0} (m : Call A) (c : NativeClient) (a : A) (f : A → NativeClient → Call B)
    → m ≡ (c, ok a)
    → (m >>= f) ≡ f a c
unfolding ◌>>=◌
bind_ok m c a f h = ap (λ (x : Call _). x >>= f) h

-- A header and as many bytes as it says.
read_two :
    (head w rest : Bytes) (c : NativeClient) (frame : ResponseFrame)
    → length head ≡ header_len
    → from_be (slice head 16 20) ≡ length w
    → decode_response_frame (head ++ w) c.max_payload_len ≡ ok frame
    → read_response_frame (with_input (head ++ (w ++ rest)) c) ≡ (with_input rest c, ok frame)
unfolding read_response_frame decoded
read_two head w rest c frame long count decodes =
    bind_ok (read_exact header_len (with_input (head ++ (w ++ rest)) c)) (with_input (w ++ rest) c)
      head _ (read_exact-append head (w ++ rest) header_len c long)
    ∙ (bind_ok (read_exact (from_be (slice head 16 20)) (with_input (w ++ rest) c))
          (with_input rest c) w _ (read_exact-append w rest _ c (sym count))
        ∙ rw decodes refl)

pub read_response_frame-encoded :
    (frame : ResponseFrame) (bytes rest : Bytes) (c : NativeClient)
    → IsFrame c.max_payload_len frame
    → encode_response_frame frame ≡ some bytes
    → read_response_frame (with_input (bytes ++ rest) c) ≡ (with_input rest c, ok frame)
read_response_frame-encoded frame bytes rest c h e =
    let w = response_word frame.payload in
    let head = header_word kind_response frame.command frame.request_id (length w) in
    let word = encode_response_frame_word frame h.payload h.short in
    let shape : bytes ≡ head ++ w = some-injective _ _ (sym e ∙ word) in
    let back =
      decode-encode_response_frame frame c.max_payload_len [] h.answers h.payload h.id h.fits
        h.short in
    let same : back.0 ≡ head ++ w = some-injective _ _ (sym back.1 ∙ word) in
    let decodes : decode_response_frame (head ++ w) c.max_payload_len ≡ ok frame =
      ap (λ (x : Bytes). decode_response_frame x c.max_payload_len)
        (sym (append-nil (head ++ w)) ∙ ap (λ (x : Bytes). x ++ []) (sym same))
      ∙ back.2 in
    let long : length head ≡ header_len =
      ap length (sym (append-nil head))
      ∙ length-header kind_response frame.command frame.request_id (length w) [] in
    let count : from_be (slice head 16 20) ≡ length w =
      ap (λ (x : Bytes). from_be (slice x 16 20)) (sym (append-nil head))
      ∙ (ap from_be (slice-len kind_response frame.command frame.request_id (length w) [])
          ∙ from_be-be_bytes 4 (length w) h.short) in
    ap (λ (x : Bytes). read_response_frame (with_input (x ++ rest) c)) shape
    ∙ (ap (λ (x : Bytes). read_response_frame (with_input x c)) (append_assoc head w rest)
        ∙ read_two head w rest c frame long count decodes)
