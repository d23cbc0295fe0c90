-- ===== src/MailStore.antt =====
-- `internal/mailstore`: the mailboxes and messages of the accounts over the logical store.
pub mod Batcher
pub mod Calls
pub mod Mailbox
pub mod Flags
pub mod Message
pub mod Change
pub mod Selection
pub mod Deliver
pub mod Account
pub mod Vacation
