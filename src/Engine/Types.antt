-- ===== src/Engine/Types.antt =====
-- The data of src/engine.rs: the engine's state, its commands, outcomes and errors.
use cachebox.Prelude.{ℕ, ◌*◌, Option, List, Key, ℕ_discrete}
pub use cachebox.Bytes.{Bytes, Text, Ttl}
use cachebox.Prelude.Map.{Assoc}

pub record EntryId : Type 0 where
  pub namespace : Text
  pub key : Bytes

pub record TagId : Type 0 where
  pub namespace : Text
  pub tag : Text

pub record ExpiryKey : Type 0 where
  pub expires_at_ms : ℕ
  pub id : EntryId

pub record Entry : Type 0 where
  pub value : Bytes
  pub expires_at_ms : Option ℕ
  pub stale_until_ms : Option ℕ
  pub tags : List Text
  pub cost : Option ℕ
  pub memory_bytes : ℕ
  pub last_access : ℕ

pub record Lease : Type 0 where
  pub token : Text
  pub expires_at_ms : ℕ

pub data EntryState : Type 0 where
  missing fresh stale expired : EntryState

pub record EngineLimits : Type 0 where
  pub max_memory_bytes : ℕ
  pub max_value_bytes : ℕ

abbrev pub default_limits : EngineLimits
default_limits = record { max_memory_bytes = 64 * 1024 * 1024; max_value_bytes = 8 * 1024 * 1024 }

pub record EngineStats : Type 0 where
  pub expirations : ℕ
  pub evictions : ℕ

pub record PutOutcome : Type 0 where
  pub evicted : ℕ

pub data PutError : Type 0 where
  value_too_large : (value_bytes max_value_bytes : ℕ) → PutError
  value_too_large_for_memory : (entry_bytes max_memory_bytes : ℕ) → PutError
  insufficient_memory : (required_bytes memory_used_bytes max_memory_bytes : ℕ) → PutError

pub record PutCommand : Type 0 where
  pub namespace : Text
  pub key : Bytes
  pub value : Bytes
  pub ttl : Option Ttl
  pub stale_ttl : Option Ttl
  pub tags : List Text
  pub cost : Option ℕ

pub record CompleteLeaseCommand : Type 0 where
  pub namespace : Text
  pub key : Bytes
  pub lease_token : Text
  pub value : Bytes
  pub ttl : Option Ttl
  pub stale_ttl : Option Ttl
  pub tags : List Text
  pub cost : Option ℕ

pub data CompleteLeaseError : Type 0 where
  invalid_lease_token : CompleteLeaseError
  put_failed : PutError → CompleteLeaseError

pub data StartLeaseOutcome : Type 0 where
  hit : Bytes → StartLeaseOutcome
  stale : (value : Bytes) → StartLeaseOutcome
  lease_granted : (token : Text) → (stale_value : Option Bytes) → StartLeaseOutcome
  lease_denied : StartLeaseOutcome

-- `GetOutcomeRef` borrows what `GetOutcome` owns: one type stands for both.
pub data GetOutcome : Type 0 where
  hit : Bytes → GetOutcome
  stale : Bytes → GetOutcome
  miss : GetOutcome

-- `Engine`, less its clock: each reading of the clock is an argument of the operation.
pub record Engine : Type 0 where
  pub entries : Assoc EntryId Entry
  pub leases : Assoc EntryId Lease
  pub tag_index : Assoc TagId (List EntryId)
  pub expiry_index : List ExpiryKey
  pub limits : EngineLimits
  pub memory_used_bytes : ℕ
  pub cost_score_total : ℕ
  pub next_access : ℕ
  pub stats : EngineStats

-- The derived equalities.
unfoldable pub Text-discrete : Discrete Text
unfolding ℕ_discrete
Text-discrete = hlevel ℕ_discrete

unfoldable pub EntryId-discrete : Discrete EntryId
unfolding ℕ_discrete
EntryId-discrete = hlevel ℕ_discrete

unfoldable pub TagId-discrete : Discrete TagId
unfolding ℕ_discrete
TagId-discrete = hlevel ℕ_discrete

unfoldable pub ExpiryKey-discrete : Discrete ExpiryKey
unfolding ℕ_discrete
ExpiryKey-discrete = hlevel ℕ_discrete

instance abbrev pub text_key : Key Text
text_key = record { same = Text-discrete }

instance abbrev pub entry_key : Key EntryId
entry_key = record { same = EntryId-discrete }

instance abbrev pub tag_key : Key TagId
tag_key = record { same = TagId-discrete }

instance abbrev pub expiry_key : Key ExpiryKey
expiry_key = record { same = ExpiryKey-discrete }

instance abbrev pub index_key : Key ℕ
index_key = record { same = ℕ_discrete }
