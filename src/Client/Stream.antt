-- ===== src/Client/Stream.antt =====
-- The stream of clients/rust/cachebox-client/src/lib.rs, and the reading of one response frame. What the
-- peer will have sent is a list of bytes; a peer that closed gives an end of file.
use cachebox.Prelude.{
  ℕ, Bool, [], ◌++◌, ltb, ◌==◌, if◌then◌else◌, Result, ok, err, length, take, drop, u64_max,
  wrapping_add,
}
use cachebox.Bytes.{Bytes}
use cachebox.Wire.Types.{ResponseFrame, DecodeError}
use cachebox.Wire.Cursor.{slice, from_be}
use cachebox.Wire.Encode.{header_len}
use cachebox.Wire.Decode.{decode_response_frame}
use cachebox.Client.Types.{write_failed, unexpected_eof, ClientError, io, decode}

-- Both ends of a connection: what the client has still to read, what it has sent, and whether the peer
-- still takes bytes.
pub record Stream : Type 0 where
  pub input : Bytes
  pub sent : Bytes
  pub writable : Bool

-- `NativeClient`. Its buffers hold nothing from one call to the next.
pub record NativeClient : Type 0 where
  pub stream : Stream
  pub next_request_id : ℕ
  pub max_payload_len : ℕ

-- `connect_tcp` and `connect_unix`, on a new connection
unfoldable pub connect : Stream → NativeClient
connect stream = record { stream = stream; next_request_id = 1; max_payload_len = u64_max }

unfoldable pub set_max_payload_len : ℕ → NativeClient → NativeClient
set_max_payload_len n c = record c { max_payload_len = n }

-- `self.next_request_id.wrapping_add(1).max(1)`
unfoldable pub next_id : ℕ → ℕ
next_id id = let n = wrapping_add id 1 in if n == 0 then 1 else n

-- The result of a call, and the client after it.
abbrev pub Call : Type 0 → Type 0
Call A = NativeClient × Result ClientError A

unfoldable pub write_all : Bytes → NativeClient → Call (Unit {0})
write_all bytes c =
    if c.stream.writable
    then (record c { stream = record c.stream { sent = c.stream.sent ++ bytes } }, ok tt)
    else (c, err (io write_failed))

unfoldable pub read_exact : ℕ → NativeClient → Call Bytes
read_exact n c =
    if ltb (length c.stream.input) n
    then (record c { stream = record c.stream { input = [] } }, err (io unexpected_eof))
    else (
      record c { stream = record c.stream { input = drop n c.stream.input } },
      ok (take n c.stream.input),
    )

-- `?` in a method
infixl 20 ◌>>=◌
unfoldable pub ◌>>=◌ : {A B : Type 0} → Call A → (A → NativeClient → Call B) → Call B
(c, ok a) >>= f = f a c
(c, err e) >>= f = (c, err e)

-- `decode_response_frame(...)?`
unfoldable pub decoded : {A : Type 0} → Result DecodeError A → NativeClient → Call A
decoded (ok a) c = (c, ok a)
decoded (err e) c = (c, err (decode e))

unfoldable pub read_response_frame : NativeClient → Call ResponseFrame
unfolding ◌>>=◌ read_exact decoded
read_response_frame c = read_exact header_len c >>= (λ header c.
    read_exact (from_be (slice header 16 20)) c
    >>= (λ payload c. decoded (decode_response_frame (header ++ payload) c.max_payload_len) c))
