-- ===== src/Store/Key/Layout.antt =====
-- What the key layouts of `internal/store/key.go` promise: keys of different kinds and of
-- different numbers are different, scans of a prefix see its own entries only, ascending byte
-- order is the order of the numbers, and the numbers are read back from their places.
use mathlib.Core.List.{append_assoc, append-nil}
use mailezine.Prelude.{
  ℕ, ◌^◌, ◌<◌, ◌≡◌, refl, [], ◌∷◌, ◌++◌, arith, ◌&&◌, ◌||◌, ◌==◌, ltb, false, length, take,
  length-append, drop, drop-append, take-append,
}
use mailezine.Bytes.{Bytes, compare_bytes, bytes_eq, bytes_lt, has_prefix, compare_bytes-append}
use mailezine.Store.Key.BigEndian.{
  be, compare_bytes-be, compare_bytes-be_append, has_prefix-be, has_prefix-be_end, length-be,
  be_value-be,
}
use mailezine.Store.Key.Space
use mailezine.Store.Key.{
  collection_key, document_key, field_key, queue_key, queue_due_key, queue_counter_key,
  index_email_prefix, index_expunge_key, document_id_from_field_key, index_email_key,
  idx_email_mbox, index_expunge_prefix, be_value, change_log_prefix, change_log_key,
  queue_due_prefix, change_id_from_log_key, queue_meta_prefix, codes,
}

-- The due index ascends by time and then by message.
pub queue_due_key-lt :
    (s t i j : ℕ)
    → s < 2 ^ 64
    → t < 2 ^ 64
    → i < 2 ^ 64
    → j < 2 ^ 64
    → bytes_lt (queue_due_key s i) (queue_due_key t j) ≡ (ltb s t || ((s == t) && ltb i j))
unfolding queue_due_key compare_bytes
queue_due_key-lt s t i j hs ht hi hj =
    ground
      (arith, compare_bytes-be_append 8 s t (be 8 i) (be 8 j) hs ht, compare_bytes-be 8 i j hi hj)

-- A scan of one document's prefix sees the fields of that document only.
pub has_prefix-document_key :
    (a b c d i j f : ℕ)
    → a < 2 ^ 32
    → b < 2 ^ 32
    → i < 2 ^ 64
    → j < 2 ^ 64
    → has_prefix (document_key a c i) (field_key b d j f) ≡ ((a == b) && ((c == d) && (i == j)))
unfolding field_key has_prefix
has_prefix-document_key a b c d i j f ha hb hi hj = simp append_assoc (
    ground (
      arith,
      has_prefix-be 4 a b (c ∷ be 8 i) (d ∷ be 8 j ++ f ∷ []) ha hb,
      has_prefix-be_end 8 i j (f ∷ []) hi hj,
    ))

-- A scan of one mailbox's message index sees the messages of that mailbox only.
pub has_prefix-index_email_prefix :
    (a b m n u : ℕ)
    → a < 2 ^ 32
    → b < 2 ^ 32
    → m < 2 ^ 64
    → n < 2 ^ 64
    → has_prefix (index_email_prefix a m) (index_email_key b n u) ≡ ((a == b) && (m == n))
unfolding index_email_prefix index_email_key has_prefix
has_prefix-index_email_prefix a b m n u ha hb hm hn = simp append_assoc (
    ground (
      arith,
      has_prefix-be 4 a b (idx_email_mbox ∷ be 8 m) (idx_email_mbox ∷ be 8 n ++ be 8 u) ha hb,
      has_prefix-be_end 8 m n (be 8 u) hm hn,
    ))

two_numbers-lt :
    (p : Bytes) (s t u v : ℕ)
    → s < 2 ^ 64
    → t < 2 ^ 64
    → u < 2 ^ 64
    → v < 2 ^ 64
    → bytes_lt ((p ++ be 8 s) ++ be 8 u) ((p ++ be 8 t) ++ be 8 v)
      ≡ (ltb s t || ((s == t) && ltb u v))
two_numbers-lt p s t u v hs ht hu hv = simp append_assoc (
    ground (
      arith,
      compare_bytes-append p (be 8 s ++ be 8 u) (be 8 t ++ be 8 v),
      compare_bytes-be_append 8 s t (be 8 u) (be 8 v) hs ht,
      compare_bytes-be 8 u v hu hv,
    ))

-- The tombstones of one mailbox ascend by modification sequence and then by UID, so those of one
-- batch, which share the sequence, are apart.
pub index_expunge_key-lt :
    (a m s t u v : ℕ)
    → s < 2 ^ 64
    → t < 2 ^ 64
    → u < 2 ^ 64
    → v < 2 ^ 64
    → bytes_lt (index_expunge_key a m s u) (index_expunge_key a m t v)
      ≡ (ltb s t || ((s == t) && ltb u v))
unfolding index_expunge_key
index_expunge_key-lt a m = two_numbers-lt (index_expunge_prefix a m)

eight_at :
    (n : ℕ) (p : Bytes) (i : ℕ) (r : Bytes)
    → length p ≡ n
    → i < 2 ^ 64
    → be_value 0 (take 8 (drop n ((p ++ be 8 i) ++ r))) ≡ i
eight_at n p i r hp hi =
    rw (append_assoc, drop-append n p (be 8 i ++ r) hp, take-append 8 (be 8 i) r (length-be 8 i))
      (be_value-be 8 i hi)

eight_at_end :
    (n : ℕ) (p : Bytes) (i : ℕ)
    → length p ≡ n
    → i < 2 ^ 64
    → be_value 0 (take 8 (drop n (p ++ be 8 i))) ≡ i
eight_at_end n p i hp hi = rw (← append-nil (p ++ be 8 i)) (eight_at n p i [] hp hi)

length-collection_key : (a c : ℕ) → length (collection_key a c) ≡ 6
unfolding collection_key
length-collection_key a c = omega (arith, length-be 4 a, length-append (be 4 a) (c ∷ []))

length-change_log_prefix : (a c : ℕ) → length (change_log_prefix a c) ≡ 6
unfolding change_log_prefix
length-change_log_prefix a c = omega (arith, length-be 4 a, length-append (be 4 a) (c ∷ []))

-- The document number is read back from the key of each of its fields, and the change number from
-- the key of its log entry.
pub ids_read_back :
    (a c i f : ℕ)
    → i < 2 ^ 64
    → (document_id_from_field_key (field_key a c i f) ≡ i)
      × (change_id_from_log_key (change_log_key a c i) ≡ i)
unfolding field_key document_id_from_field_key change_log_key change_id_from_log_key
    change_log_prefix
ids_read_back a c i f h = (
  eight_at 6 (collection_key a c) i (f ∷ []) (length-collection_key a c) h,
  eight_at_end 6 (change_log_prefix a c) i (length-change_log_prefix a c) h,
)

-- Two rows of the outbound queue have one key only if they are one message.
pub queue_key-eq :
    (name : Bytes) (i j : ℕ)
    → i < 2 ^ 64
    → j < 2 ^ 64
    → bytes_eq (queue_key name i) (queue_key name j) ≡ (i == j)
unfolding queue_key compare_bytes
queue_key-eq name i j hi hj =
    ground
      (arith, compare_bytes-append (name ++ 0 ∷ []) (be 8 i) (be 8 j), compare_bytes-be 8 i j hi hj)

-- Rows, the due index and the message counter of the outbound queue never share a key.
pub queue_keys_apart :
    (i t j : ℕ)
    → (bytes_eq (queue_key (codes "meta") i) (queue_due_key t j) ≡ false)
      × (bytes_eq (queue_key (codes "meta") i) queue_counter_key ≡ false)
      × (bytes_eq (queue_due_key t j) queue_counter_key ≡ false)
      × (has_prefix queue_due_prefix (queue_key (codes "meta") i) ≡ false)
      × (has_prefix (queue_meta_prefix (codes "meta")) (queue_due_key t j) ≡ false)
unfolding queue_key queue_due_key queue_counter_key queue_due_prefix queue_meta_prefix compare_bytes
    has_prefix
queue_keys_apart i t j = (refl, refl, refl, refl, refl)

-- A due entry has the 21 bytes that the scheduler expects, and its time and message are read back
-- from bytes 5 to 13 and 13 to 21.
pub queue_due_key-read :
    (t i : ℕ)
    → t < 2 ^ 64
    → i < 2 ^ 64
    → (length (queue_due_key t i) ≡ 21)
      × (be_value 0 (take 8 (drop 5 (queue_due_key t i))) ≡ t)
      × (be_value 0 (take 8 (drop 13 (queue_due_key t i))) ≡ i)
unfolding queue_due_key
queue_due_key-read t i ht hi = (
  omega (arith, length-append (be 8 t) (be 8 i), length-be 8 t, length-be 8 i),
  eight_at 5 (Space.queue ∷ codes "due/") t (be 8 i) refl ht,
  eight_at_end 13 (Space.queue ∷ codes "due/" ++ be 8 t) i (omega (arith, length-be 8 t)) hi,
)
