-- ===== src/Lib.antt =====
-- Mailezine, a mail server in Go: its outbound queue, the transactions it runs on, the mail
-- store over them, and the leases, cache and access rights beside them.
--
-- How the parts interact. The queue keeps message rows, a due index and a counter in an ordered
-- key-value store and bodies in a blob store. Several nodes share the store: a scheduler reads the
-- due index, claims a message for the time of a lease, delivers it, and records the outcome in a
-- transaction that is fenced by the claim. Transactions of a plain engine are a write buffer; the
-- in-memory engine has its own. A lease elects one node for a background task in the same way. The
-- mail store keeps accounts, mailboxes and messages as documents of the store; IMAP, delivery and
-- POP3 reach mail through it. Deliveries to one account that come together are one transaction,
-- which the first of them commits.
--
-- Files and code.
--   Prelude: notation, tests on numbers, lists, maps from numbers and sets of pairs of numbers.
--   Bytes: byte strings in the order of `bytes.Compare`, and sorted sequences of entries.
--   Store/Key: internal/store/key.go, one function to each key function there; a key is a list of
--     bytes, and Store/Key/BigEndian has the numbers in it.
--   Store/Kv: internal/store/kv.go, the contract of an engine as a record of operations and laws,
--     which Store/MemKv fills and Store/WriteBuf and Lease take.
--   Store/WriteBuf: internal/store/txn.go, `writeBuf` and `bufTxn.WithTxn`. The closure of a
--     transaction is a function from the buffer to a result and a buffer.
--   Store/MemKv: internal/store/memkv.go, `MemoryKV`; MemKv/Txn is its `memTxn`.
--   Store/PrefixEnd: `PrefixEnd` of internal/store/pebble.go. Store/ChangeLog: the values of the
--     change log of internal/store/log.go.
--   Store/Txn: `TxnKV` of internal/store/kv.go, any engine with transactions, and `AsTxn`. The files
--     below it take one as a section parameter.
--   Store/Counters: `NextCounter`, `CounterValue`, `BumpMailboxModSeq` and the decoding of counters of
--     internal/store/store.go; internal/store/quota.go.
--   Store/Accounts: `CreateAccount` and the reads of accounts of internal/store/store.go.
--   Store/Documents: internal/store/doc.go without its range scan, which Store/Range has together with
--     `ChangesSince` of internal/store/log.go.
--   Store/Email: `DeliverEmail`, `DeliverEmailBatch`, `AppendEmailAtomically` of
--     internal/store/store.go; Email/Remove is `DeleteEmailAtomically`, Email/Update the two update
--     functions and `AppendChange`.
--   Store/BlobLink and Store/Sweep: internal/store/bloblink.go, the counts and the sweep.
--   Store/View, Writes, Apart and the children of the files above: proofs. A plan is a function from
--     what the keys hold to a list of operations; a closure carries out its plan on every handle.
--   Queue/Message: the types and settings of internal/queue/queue.go, `New`, `backoff`, `duePos`.
--   Queue/Spool: the key spaces of the queue as typed data; a transaction's closure reads the spool
--     as it stood and returns its writes, and an error drops them.
--   Queue/Admin: `Submit`, `nextID`, `save`, `Retry`, `Cancel`, `pruneTerminal`, `List`.
--   Queue/Claim: the scan of `ProcessDue`, and `claim`.
--   Queue/Outcome: `processMessage` between the claim and the commit, `applyTransportFailure`,
--     `finalizeState`, `commitOutcome`, `maybeBounce`, and `maybeDelayWarning` of
--     internal/queue/delay.go.
--   Queue/Process: `processMessage` as a whole.
--   Queue/System: several nodes over one spool, one transaction or batch a step, in any order.
--   Queue/Index, Fencing, Retention, Pruning, Delivery: proofs about the above.
--   Lease: internal/kvlease/lease.go, `Acquire` and `Release`.
--   MailCache: internal/mailcache/lru.go, one shard; MailCache/Sharding is the striping over shards.
--   Acl: internal/acl/acl.go.
--   MailStore/Batcher: `deliverBatcher` and `runBatch` of internal/mailstore/kv.go; a call is at one of
--     the places where it holds no mutex, and an event is an arrival or the step of one leader.
--   MailStore/Calls: what a call reads and writes, the store and the cache of identifiers of `KV`; a
--     call is a function from these to a result and these. `Engine` is a store with range scans.
--   MailStore/Mailbox: `ensureAccount`, `ensureMailbox`, `mailboxDocID` of kv.go, and `CreateMailbox`,
--     `SetSubscribed`, `EnsureDefaultMailboxes`, `mailboxMeta` of internal/mailstore/kv_mailbox.go.
--   MailStore/Flags: the flags as text, `splitCSV`, `splitFlags`, `normalizeFlags`.
--   MailStore/Message: `emailFromFields`, `mailboxEmails`, `expungeUIDs`, `deleteEmail`.
--   MailStore/Change: `SetFlags`, `SetFlagsBatch`, `RenameMailbox`, `DeleteMailbox`.
--   MailStore/Deliver: `Deliver`, `Copy`, `Move`, `headerBlock`.
--   MailStore/Account: `DeleteAccount`. MailStore/Vacation: internal/mailstore/vacation.go.
--   MailStore/Selection: the lists of UIDs that `Expunge` and `resolveUIDs` of
--     internal/imap/session.go pass to the mail store.
--   Tests: the theorems at concrete inputs.
--
-- Numbers and bounds. A time counts nanoseconds from Go's zero time; `uint64(t.Unix())` is written
-- with its wrap-around at 2^64. The counter of messages wraps at 2^64, and a step of Queue/System
-- gives a number only below that. Counters, quotas and reference counts of the store are 64-bit patterns
-- that wrap, and the theorems say where they need room. `strings.EqualFold` folds ASCII letters
-- only, which is exact for the one flag that the mail store asks for. The arithmetic of a duration
-- does not overflow 63 bits. The only fuel is the number of rounds of two loops: `backoff` runs
-- once for each attempt, and an eviction once for each entry of the shard. The leader of a batch
-- runs by events, as many as are given; `MailStore.Batcher.Answered` says how many are enough while
-- none arrives. `failAll` takes at most 2^30 deliveries at once, as the code does.
--
-- Parameters. The network's answer to an attempt, the random factor of the retry delay, the bodies
-- in the blob store, the signing of a message, the hash of a cache key, the JSON codec of a lease
-- record, for a sweep the deletion of a blob and what other processes do meanwhile; for the mail store the
-- time in a date field, the digest of a body, the answer of the blob store to an upload, the text of
-- a date, the body structure of a message, and which numbers a set of the IMAP library contains.
--
-- Not modelled. The JSON codec of queue rows (the spool is typed data), failures of the engine and
-- of blob deletions, locks and goroutines within one process (a call is one step), logs and
-- metrics, the text of delivery status notes, the ticker of a lease. In Queue/System a
-- step is one transaction or batch, so the delay warning, which the code writes in a batch of its own
-- without the fence of the claim, may come after other steps on its message; `IsCalm` names the runs
-- in which it does not. In the mail store a call is
-- one sequence of transactions that nothing interrupts, and a delivery commits alone; batches of
-- several calls are in MailStore/Batcher, with a commit's outcome as the only thing it says. The
-- counts of ListMailboxes and MailboxStatus, reindexing, scripts, rows of access rights and the
-- cached mail store are left out. SMTP, IMAP beyond the choice of messages, POP3, Sieve, DNS, and the
-- engines over third-party databases are not modelled; internal/imapserver, imapwire, imapnum, gimap
-- and utf7 are copies of another project's library, as is internal/gosieve.
pub mod Prelude
pub mod Bytes
pub mod Store
pub mod Queue
pub mod Lease
pub mod MailCache
pub mod Acl
pub mod MailStore
pub mod Tests
