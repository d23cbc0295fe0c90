-- ===== src/Store/Key.antt =====
-- `internal/store/key.go`: the byte layout of every key. Fixed-width numbers are big-endian, so the
-- byte order of keys is the order of the numbers in them.
pub mod BigEndian
pub mod Space
pub mod Layout
pub mod Typed
use Prim.Native.Char.{code}
use Prim.Native.String.{String}
use mailezine.Prelude.{ℕ, ◌+◌, List, [], ◌∷◌, ◌++◌, take, drop}
use mailezine.Bytes.{Bytes}
use BigEndian.{be, be_value}

-- The bytes of an ASCII literal.
abbrev pub codes : String → Bytes
codes String.[] = []
codes (String.◌∷◌ c s) = code c ∷ codes s

abbrev pub idx_mailbox_name : ℕ
idx_mailbox_name = b'n'

abbrev pub idx_email_mbox : ℕ
idx_email_mbox = b'e'

abbrev pub idx_email_expunged : ℕ
idx_email_expunged = b'x'

abbrev pub counter_kind_next_doc : ℕ
counter_kind_next_doc = 1

abbrev pub counter_kind_change : ℕ
counter_kind_change = 2

abbrev pub field_meta : ℕ
field_meta = 0

unfoldable pub append_uint32 : Bytes → ℕ → Bytes
append_uint32 k v = k ++ be 4 v

unfoldable pub append_uint64 : Bytes → ℕ → Bytes
append_uint64 k v = k ++ be 8 v

unfoldable pub append_space_id : ℕ → ℕ → Bytes
append_space_id space account_id = space ∷ be 4 account_id

unfoldable pub account_key : ℕ → Bytes
unfolding append_space_id
account_key account_id = append_space_id Space.account account_id

unfoldable pub collection_key : ℕ → ℕ → Bytes
unfolding append_space_id
collection_key account_id collection = append_space_id Space.document account_id ++ collection ∷ []

unfoldable pub document_key : ℕ → ℕ → ℕ → Bytes
unfolding collection_key append_uint64
document_key account_id collection document_id =
    append_uint64 (collection_key account_id collection) document_id

unfoldable pub field_key : ℕ → ℕ → ℕ → ℕ → Bytes
unfolding document_key
field_key account_id collection document_id field =
    document_key account_id collection document_id ++ field ∷ []

unfoldable pub queue_meta_prefix : Bytes → Bytes
queue_meta_prefix queue_name = Space.queue ∷ queue_name ++ 0 ∷ []

unfoldable pub queue_key : Bytes → ℕ → Bytes
unfolding append_uint64
queue_key queue_name message_id = append_uint64 (Space.queue ∷ queue_name ++ 0 ∷ []) message_id

unfoldable pub queue_counter_key : Bytes
queue_counter_key = Space.queue ∷ codes "counter"

unfoldable pub queue_due_prefix : Bytes
queue_due_prefix = Space.queue ∷ codes "due/"

-- The time is `uint64` of the unix seconds.
unfoldable pub queue_due_key : ℕ → ℕ → Bytes
unfolding append_uint64
queue_due_key next_attempt_unix message_id =
    append_uint64 (Space.queue ∷ codes "due/" ++ be 8 next_attempt_unix) message_id

unfoldable pub counter_key : ℕ → ℕ → Bytes → Bytes
unfolding append_space_id
counter_key account_id kind sub = append_space_id Space.account account_id ++ kind ∷ sub

unfoldable pub change_log_prefix : ℕ → ℕ → Bytes
unfolding append_uint32
change_log_prefix account_id collection =
    append_uint32 (Space.log ∷ []) account_id ++ collection ∷ []

unfoldable pub change_log_key : ℕ → ℕ → ℕ → Bytes
unfolding append_uint32 append_uint64
change_log_key account_id collection change_id =
    append_uint64 (append_uint32 (Space.log ∷ []) account_id ++ collection ∷ []) change_id

unfoldable pub quota_key : ℕ → Bytes
unfolding append_space_id
quota_key account_id = append_space_id Space.quota account_id

unfoldable pub blob_link_key : ℕ → Bytes → Bytes
unfolding append_space_id
blob_link_key account_id blob_id = append_space_id Space.blob_link account_id ++ blob_id

unfoldable pub meta_email_key : Bytes → Bytes
meta_email_key email = Space.meta ∷ codes "email:" ++ email

unfoldable pub index_mailbox_name_key : ℕ → Bytes → Bytes
unfolding append_space_id
index_mailbox_name_key account_id name =
    append_space_id Space.index account_id ++ idx_mailbox_name ∷ name

unfoldable pub index_email_prefix : ℕ → ℕ → Bytes
unfolding append_space_id append_uint64
index_email_prefix account_id mb_id =
    append_uint64 (append_space_id Space.index account_id ++ idx_email_mbox ∷ []) mb_id

unfoldable pub index_email_key : ℕ → ℕ → ℕ → Bytes
unfolding append_space_id append_uint64
index_email_key account_id mb_id uid =
    append_uint64
      (append_uint64 (append_space_id Space.index account_id ++ idx_email_mbox ∷ []) mb_id) uid

unfoldable pub index_expunge_prefix : ℕ → ℕ → Bytes
unfolding append_space_id append_uint64
index_expunge_prefix account_id mb_id =
    append_uint64 (append_space_id Space.index account_id ++ idx_email_expunged ∷ []) mb_id

unfoldable pub index_expunge_key : ℕ → ℕ → ℕ → ℕ → Bytes
unfolding index_expunge_prefix append_uint64
index_expunge_key account_id mb_id mod_seq uid =
    append_uint64 (append_uint64 (index_expunge_prefix account_id mb_id) mod_seq) uid

unfoldable pub meta_next_account_key : Bytes
meta_next_account_key = Space.meta ∷ codes "next_account"

unfoldable pub meta_lease_key : Bytes → Bytes
meta_lease_key name = Space.meta ∷ codes "lease:" ++ name

unfoldable pub meta_vacation_key : Bytes → Bytes → Bytes
meta_vacation_key account sender = Space.meta ∷ codes "vacation:" ++ (account ++ 0x1f ∷ sender)

unfoldable pub meta_blob_gc_prefix : Bytes
meta_blob_gc_prefix = Space.meta ∷ codes "gc:blob:"

unfoldable pub meta_blob_gc_key : Bytes → Bytes
unfolding meta_blob_gc_prefix
meta_blob_gc_key blob_id = meta_blob_gc_prefix ++ blob_id

-- `binary.BigEndian.Uint64(k[6:14])`
unfoldable pub document_id_from_field_key : Bytes → ℕ
document_id_from_field_key k = be_value 0 (take 8 (drop 6 k))

unfoldable pub change_id_from_log_key : Bytes → ℕ
change_id_from_log_key k = be_value 0 (take 8 (drop 6 k))
