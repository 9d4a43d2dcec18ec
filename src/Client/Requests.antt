-- ===== src/Client/Requests.antt =====
-- `request` of clients/rust/cachebox-client/src/lib.rs, and the methods that call it. `none` is the panic
-- of the encoder at a payload of 4 GiB or more.
use cachebox.Prelude.{
  ℕ, Bool, ◌&&◌, Option, none, some, List, map, ◌==◌, if◌then◌else◌, Result, ok, err,
}
use cachebox.Bytes.{Bytes, Text}
use cachebox.Wire.Types.{
  Command, Metadata, BatchItem, RequestPayload, ResponsePayload, ResponseFrame, command_id,
}
use cachebox.Wire.Encode.{encode_request_frame}
use cachebox.Client.Types.{
  ClientError, server, unexpected_response, GetResult, LeaseStartResult, get_result, item_result,
  lease_result, stored_result, deleted_result, batch_result, invalidated_result,
}
use cachebox.Client.Stream.{NativeClient, Call, ◌>>=◌, next_id, write_all, read_response_frame}

-- `command` values are equal if their numbers are.
unfoldable pub same_command : Command → Command → Bool
unfolding command_id
same_command a b = command_id a == command_id b

-- The last `match` of `request`
unfoldable pub payload_result : ResponsePayload → Result ClientError ResponsePayload
payload_result (ResponsePayload.error code message) = err (server code message)
payload_result payload = ok payload

unfoldable pub accept : ℕ → Command → ResponseFrame → Result ClientError ResponsePayload
accept request_id command response =
    if response.request_id == request_id && same_command response.command command
    then payload_result response.payload
    else err (unexpected_response "response header mismatch")

-- The part of `request` after the encoder.
unfoldable pub exchange : ℕ → Command → Bytes → NativeClient → Call ResponsePayload
unfolding ◌>>=◌
exchange request_id command bytes c =
    write_all bytes c
    >>= (λ _ c. read_response_frame c >>= (λ response c. (c, accept request_id command response)))

unfoldable pub request : Command → RequestPayload → NativeClient → Option (Call ResponsePayload)
request command payload c =
    let c' = record c { next_request_id = next_id c.next_request_id } in
    elim (encode_request_frame
      (record { request_id = c.next_request_id; command = command; payload = payload })) [
        | none ↦ none
        | some bytes ↦ some (exchange c.next_request_id command bytes c')
      ]

-- `self.request(...).await?`, and what a method makes of the payload
unfoldable pub then_result :
    {A : Type 0}
    → (ResponsePayload → Result ClientError A)
    → Option (Call ResponsePayload)
    → Option (Call A)
then_result f none = none
then_result f (some (c, ok payload)) = some (c, f payload)
then_result f (some (c, err e)) = some (c, err e)

unfoldable pub get_raw : Text → Bytes → NativeClient → Option (Call ResponsePayload)
get_raw namespace key = request Command.get (RequestPayload.get namespace key)

unfoldable pub get : Text → Bytes → NativeClient → Option (Call GetResult)
get namespace key c = then_result get_result (get_raw namespace key c)

unfoldable pub put : Text → Bytes → Metadata → Bytes → NativeClient → Option (Call ℕ)
put namespace key metadata value c =
    then_result (stored_result "put did not return stored")
      (request Command.put (RequestPayload.put namespace key metadata value) c)

unfoldable pub delete : Text → Bytes → NativeClient → Option (Call Bool)
delete namespace key c =
    then_result deleted_result (request Command.delete (RequestPayload.delete namespace key) c)

unfoldable pub batch_get_raw : Text → List Bytes → NativeClient → Option (Call (List BatchItem))
batch_get_raw namespace keys c =
    then_result batch_result (request Command.batch_get (RequestPayload.batch_get namespace keys) c)

-- `items.into_iter().map(GetResult::from).collect()`
unfoldable pub batch_results : ResponsePayload → Result ClientError (List GetResult)
batch_results payload = elim (batch_result payload) [
  | ok items ↦ ok (map item_result items)
  | err e ↦ err e
]

unfoldable pub batch_get : Text → List Bytes → NativeClient → Option (Call (List GetResult))
batch_get namespace keys c =
    then_result batch_results
      (request Command.batch_get (RequestPayload.batch_get namespace keys) c)

unfoldable pub invalidate_tag : Text → Text → NativeClient → Option (Call ℕ)
invalidate_tag namespace tag c =
    then_result invalidated_result
      (request Command.tag_invalidate (RequestPayload.tag_invalidate namespace tag) c)

unfoldable pub start_lease_raw :
    Text → Bytes → ℕ → Option ℕ → NativeClient → Option (Call ResponsePayload)
start_lease_raw namespace key lease_ttl_ms allow_stale_ms =
    request Command.lease_start
      (RequestPayload.lease_start namespace key lease_ttl_ms allow_stale_ms)

unfoldable pub start_lease :
    Text → Bytes → ℕ → Option ℕ → NativeClient → Option (Call LeaseStartResult)
start_lease namespace key lease_ttl_ms allow_stale_ms c =
    then_result lease_result (start_lease_raw namespace key lease_ttl_ms allow_stale_ms c)

unfoldable pub complete_lease :
    Text → Bytes → Text → Metadata → Bytes → NativeClient → Option (Call ℕ)
complete_lease namespace key lease_token metadata value c =
    then_result (stored_result "lease completion did not return stored") (
      request Command.lease_complete
        (RequestPayload.lease_complete namespace key lease_token metadata value) c)
