-- ===== src/Store.antt =====
-- The storage planes of `internal/store`: key encoding, the key-value contract and transactions.
pub mod Key
pub mod Kv
pub mod WriteBuf
pub mod MemKv
pub mod PrefixEnd
pub mod ChangeLog
pub mod Txn
pub mod View
pub mod Counters
pub mod BlobLink
pub mod Documents
pub mod Writes
pub mod Apart
pub mod Email
pub mod Accounts
pub mod Range
pub mod Sweep
