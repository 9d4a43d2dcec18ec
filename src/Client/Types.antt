-- ===== src/Client/Types.antt =====
-- The errors and the results of clients/rust/cachebox-client/src/lib.rs.
use cachebox.Prelude.{ℕ, Bool, Option, List, Result, ok, err}
use Prim.Native.String.{String}
use cachebox.Bytes.{Bytes, Text}
use cachebox.Wire.Types.{ErrorCode, DecodeError, BatchItem, ResponsePayload}

-- `std::io::Error`, as far as the client can meet it: the peer takes no bytes, or gives none.
pub data IoError : Type 0 where
  write_failed unexpected_eof : IoError

pub data ClientError : Type 0 where
  io : IoError → ClientError
  decode : DecodeError → ClientError
  server : (code : ErrorCode) (message : Text) → ClientError
  unexpected_response : String → ClientError

pub data GetResult : Type 0 where
  hit : Bytes → GetResult
  stale : Bytes → GetResult
  miss : GetResult

pub data LeaseStartResult : Type 0 where
  hit : Bytes → LeaseStartResult
  stale : Bytes → LeaseStartResult
  lease_granted : (lease_token : Text) (stale_value : Option Bytes) → LeaseStartResult
  lease_denied : LeaseStartResult

-- `GetResult::try_from`
unfoldable pub get_result : ResponsePayload → Result ClientError GetResult
get_result (ResponsePayload.hit value) = ok (GetResult.hit value)
get_result (ResponsePayload.stale value) = ok (GetResult.stale value)
get_result ResponsePayload.miss = ok GetResult.miss
get_result _ = err (unexpected_response "get did not return hit, stale, or miss")

-- `GetResult::from`
unfoldable pub item_result : BatchItem → GetResult
item_result (BatchItem.hit value) = GetResult.hit value
item_result (BatchItem.stale value) = GetResult.stale value
item_result BatchItem.miss = GetResult.miss

-- `LeaseStartResult::try_from`
unfoldable pub lease_result : ResponsePayload → Result ClientError LeaseStartResult
lease_result (ResponsePayload.hit value) = ok (LeaseStartResult.hit value)
lease_result (ResponsePayload.stale value) = ok (LeaseStartResult.stale value)
lease_result (ResponsePayload.lease_granted lease_token stale_value) =
    ok (LeaseStartResult.lease_granted lease_token stale_value)
lease_result ResponsePayload.lease_denied = ok LeaseStartResult.lease_denied
lease_result _ = err (unexpected_response "lease start did not return a lease state")

-- The `match` of `put` and of `complete_lease`, with the words of each
unfoldable pub stored_result : String → ResponsePayload → Result ClientError ℕ
stored_result what (ResponsePayload.stored evicted) = ok evicted
stored_result what _ = err (unexpected_response what)

unfoldable pub deleted_result : ResponsePayload → Result ClientError Bool
deleted_result (ResponsePayload.deleted removed) = ok removed
deleted_result _ = err (unexpected_response "delete did not return deleted")

unfoldable pub batch_result : ResponsePayload → Result ClientError (List BatchItem)
batch_result (ResponsePayload.batch_get items) = ok items
batch_result _ = err (unexpected_response "batch get did not return batch")

unfoldable pub invalidated_result : ResponsePayload → Result ClientError ℕ
invalidated_result (ResponsePayload.invalidated removed) = ok removed
invalidated_result _ = err (unexpected_response "tag invalidation did not return invalidated")
