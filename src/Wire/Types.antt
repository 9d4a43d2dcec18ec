-- ===== src/Wire/Types.antt =====
-- The frames of crates/cachebox-protocol/src/lib.rs and its errors.
use cachebox.Prelude.{ℕ, Bool, Option, List, ◌==◌, if◌then◌else◌, Result, ok, err}
use Prim.Native.String.{String}
use cachebox.Bytes.{Bytes, Text, Ttl}

pub data Command : Type 0 where
  get put delete batch_get tag_invalidate lease_start lease_complete : Command

pub data ContentType : Type 0 where
  octet_stream other : ContentType

pub record Metadata : Type 0 where
  pub ttl : Option Ttl
  pub stale_ttl : Option Ttl
  pub cost : Option ℕ
  pub tags : List Text
  pub content_type : ContentType

pub data RequestPayload : Type 0 where
  get : (namespace : Text) (key : Bytes) → RequestPayload
  put : (namespace : Text) (key : Bytes) (metadata : Metadata) (value : Bytes) → RequestPayload
  delete : (namespace : Text) (key : Bytes) → RequestPayload
  batch_get : (namespace : Text) (keys : List Bytes) → RequestPayload
  tag_invalidate : (namespace : Text) (tag : Text) → RequestPayload
  lease_start :
      (namespace : Text) (key : Bytes) (lease_ttl_ms : ℕ) (allow_stale_ms : Option ℕ)
      → RequestPayload
  lease_complete :
      (namespace : Text) (key : Bytes) (lease_token : Text) (metadata : Metadata) (value : Bytes)
      → RequestPayload

pub data RequestPayloadView : Type 0 where
  get : (namespace : Text) (key : Bytes) → RequestPayloadView
  delete : (namespace : Text) (key : Bytes) → RequestPayloadView
  tag_invalidate : (namespace : Text) (tag : Text) → RequestPayloadView
  lease_start :
      (namespace : Text) (key : Bytes) (lease_ttl_ms : ℕ) (allow_stale_ms : Option ℕ)
      → RequestPayloadView

pub record RequestFrame : Type 0 where
  pub request_id : ℕ
  pub command : Command
  pub payload : RequestPayload

pub record RequestFrameView : Type 0 where
  pub request_id : ℕ
  pub command : Command
  pub payload : RequestPayloadView

pub data ErrorCode : Type 0 where
  bad_frame unsupported_version unknown_command invalid_namespace invalid_tag invalid_ttl :
      ErrorCode
  value_too_large entry_too_large insufficient_memory invalid_lease_token frame_too_large :
      ErrorCode

pub data BatchItem : Type 0 where
  hit : Bytes → BatchItem
  stale : Bytes → BatchItem
  miss : BatchItem

pub data ResponsePayload : Type 0 where
  done : ResponsePayload
  hit : Bytes → ResponsePayload
  stale : Bytes → ResponsePayload
  miss : ResponsePayload
  stored : (evicted : ℕ) → ResponsePayload
  deleted : (removed : Bool) → ResponsePayload
  invalidated : (removed : ℕ) → ResponsePayload
  lease_granted : (lease_token : Text) (stale_value : Option Bytes) → ResponsePayload
  lease_denied : ResponsePayload
  error : (code : ErrorCode) (message : Text) → ResponsePayload
  batch_get : (items : List BatchItem) → ResponsePayload

pub data ResponsePayloadView : Type 0 where
  hit : Bytes → ResponsePayloadView
  stale : Bytes → ResponsePayloadView
  miss : ResponsePayloadView

pub record ResponseFrame : Type 0 where
  pub request_id : ℕ
  pub command : Command
  pub payload : ResponsePayload

pub data DecodeError : Type 0 where
  incomplete_header bad_magic invalid_utf8 invalid_namespace invalid_tag : DecodeError
  unsupported_version invalid_kind unknown_command nonzero_flags nonzero_reserved : ℕ → DecodeError
  invalid_bool trailing_bytes : ℕ → DecodeError
  frame_too_large : (payload_len max : ℕ) → DecodeError
  truncated_payload : (expected actual : ℕ) → DecodeError
  invalid_payload : String → DecodeError

unfoldable pub command_id : Command → ℕ
command_id Command.get = 0x01
command_id Command.put = 0x02
command_id Command.delete = 0x03
command_id Command.batch_get = 0x04
command_id Command.tag_invalidate = 0x05
command_id Command.lease_start = 0x06
command_id Command.lease_complete = 0x07

unfoldable pub command_from_id : ℕ → Result DecodeError Command
command_from_id id =
    if id == 0x01
    then ok Command.get
    else if id == 0x02
    then ok Command.put
    else if id == 0x03
    then ok Command.delete
    else if id == 0x04
    then ok Command.batch_get
    else if id == 0x05
    then ok Command.tag_invalidate
    else if id == 0x06
    then ok Command.lease_start
    else if id == 0x07
    then ok Command.lease_complete
    else err (unknown_command id)

unfoldable pub error_id : ErrorCode → ℕ
error_id ErrorCode.bad_frame = 0x0001
error_id ErrorCode.unsupported_version = 0x0002
error_id ErrorCode.unknown_command = 0x0003
error_id ErrorCode.invalid_namespace = 0x0004
error_id ErrorCode.invalid_tag = 0x0005
error_id ErrorCode.invalid_ttl = 0x0006
error_id ErrorCode.value_too_large = 0x0007
error_id ErrorCode.entry_too_large = 0x0008
error_id ErrorCode.insufficient_memory = 0x0009
error_id ErrorCode.invalid_lease_token = 0x000a
error_id ErrorCode.frame_too_large = 0x000b

unfoldable pub error_from_id : ℕ → Result DecodeError ErrorCode
error_from_id id =
    if id == 0x0001
    then ok ErrorCode.bad_frame
    else if id == 0x0002
    then ok ErrorCode.unsupported_version
    else if id == 0x0003
    then ok ErrorCode.unknown_command
    else if id == 0x0004
    then ok ErrorCode.invalid_namespace
    else if id == 0x0005
    then ok ErrorCode.invalid_tag
    else if id == 0x0006
    then ok ErrorCode.invalid_ttl
    else if id == 0x0007
    then ok ErrorCode.value_too_large
    else if id == 0x0008
    then ok ErrorCode.entry_too_large
    else if id == 0x0009
    then ok ErrorCode.insufficient_memory
    else if id == 0x000a
    then ok ErrorCode.invalid_lease_token
    else if id == 0x000b
    then ok ErrorCode.frame_too_large
    else err (invalid_payload "unknown error code")

-- Which command goes with which payload.
unfoldable pub command_of : RequestPayload → Command
command_of (RequestPayload.get _ _) = Command.get
command_of (RequestPayload.put _ _ _ _) = Command.put
command_of (RequestPayload.delete _ _) = Command.delete
command_of (RequestPayload.batch_get _ _) = Command.batch_get
command_of (RequestPayload.tag_invalidate _ _) = Command.tag_invalidate
command_of (RequestPayload.lease_start _ _ _ _) = Command.lease_start
command_of (RequestPayload.lease_complete _ _ _ _ _) = Command.lease_complete
