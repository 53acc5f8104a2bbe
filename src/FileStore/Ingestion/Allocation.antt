-- ===== src/FileStore/Ingestion/Allocation.antt =====
-- Sequence numbers are given once each, in ascending order.
use eventcore.Prelude.{ℕ, ◌+◌, ◌<◌, ◌≡◌, some, arith, eqb, if◌then◌else◌}
use eventcore.Prelude.UuidMap.{Uuid, lookup-insert}
use eventcore.FileStore.Ingestion.{IngestionLog, u64_mod, seq_of, allocate}

-- Every number that was given is below the next one.
abbrev pub IsBounded : IngestionLog → Type 0
IsBounded log = (id : Uuid) (seq : ℕ) → seq_of log id ≡ some seq → seq < log.next_seq

pub allocate-IsBounded :
    (id : Uuid) (log : IngestionLog)
    → log.next_seq + 1 < u64_mod
    → IsBounded log
    → IsBounded (allocate id log).1
unfolding allocate seq_of
allocate-IsBounded id log fits h j seq e =
    ground (arith, lookup-insert id j log.next_seq log.seq_by_event, h j seq)

pub seq_of-allocate :
    (id other : Uuid) (log : IngestionLog)
    → seq_of (allocate id log).1 other
      ≡ (if eqb id other then some log.next_seq else seq_of log other)
unfolding allocate seq_of
seq_of-allocate id other log = lookup-insert id other log.next_seq log.seq_by_event
