-- ===== src/Types/Error.antt =====
-- eventcore-types/src/store.rs and errors.rs: identifiers, versions and the two error types.
use eventcore.Prelude.{ℕ, ◌+◌, ◌%◌, ◌^◌, String}

abbrev pub StreamId : Type 0
StreamId = String

-- the range of `usize` on a 64-bit target, of `u64` and of `u32`
abbrev pub usize_mod : ℕ
usize_mod = 2 ^ 64

abbrev pub u32_mod : ℕ
u32_mod = 2 ^ 32

abbrev pub StreamVersion : Type 0
StreamVersion = ℕ

-- The sum wraps, as in a release build.
unfoldable pub increment : StreamVersion → StreamVersion
increment v = (v + 1) % usize_mod

pub data Operation : Type 0 where
  read_stream append_events begin_transaction set_expected_versions commit_transaction : Operation

pub data EventStoreError : Type 0 where
  conflicting_expected_versions : StreamId → StreamVersion → StreamVersion → EventStoreError
  undeclared_stream : StreamId → EventStoreError
  serialization_failed : StreamId → String → EventStoreError
  deserialization_failed : StreamId → String → EventStoreError
  store_failure : Operation → EventStoreError
  version_conflict : StreamId → StreamVersion → StreamVersion → EventStoreError

-- A boxed business error is represented by its message.
pub data CommandError : Type 0 where
  business_rule_violation : String → CommandError
  concurrency_error : ℕ → CommandError
  event_store_error : EventStoreError → CommandError
  validation_error : String → CommandError
