-- ===== src/Store/Key/Typed.antt =====
-- The keys of `internal/store/key.go` as data, one constructor to each key function of the file, and
-- when two of them are one key.
use mailezine.Prelude.{
  ℕ, ◌%◌, ◌^◌, ◌≡◌, refl, ◌∙◌, sym, ap, ◌%◌, Bool, true, false, [], ◌∷◌, ◌++◌, ◌&&◌, arith, ◌==◌,
  ◌&&◌,
}
use mathlib.Core.List.{append_assoc, append-nil}
use mailezine.Bytes.{Bytes, bytes_eq, compare_bytes}
use mailezine.Store.Key.BigEndian.{be, be4_mod, be8_mod, compare_bytes-be, compare_bytes-be_append}
use mailezine.Store.Key.{
  account_key, field_key, counter_key, change_log_key, quota_key, blob_link_key, meta_email_key,
  meta_next_account_key, meta_blob_gc_key, index_mailbox_name_key, index_email_key,
  index_expunge_key, meta_lease_key, meta_vacation_key, queue_key, queue_due_key, queue_counter_key,
  codes,
}

pub data StoreKey : Type 0 where
  account quota : ℕ → StoreKey
  field : ℕ → ℕ → ℕ → ℕ → StoreKey
  counter : ℕ → ℕ → Bytes → StoreKey
  change_log : ℕ → ℕ → ℕ → StoreKey
  blob_link : ℕ → Bytes → StoreKey
  index_mailbox_name : ℕ → Bytes → StoreKey
  index_email : ℕ → ℕ → ℕ → StoreKey
  index_expunge : ℕ → ℕ → ℕ → ℕ → StoreKey
  meta_email blob_gc lease : Bytes → StoreKey
  vacation : Bytes → Bytes → StoreKey
  queue_row : ℕ → StoreKey
  queue_due : ℕ → ℕ → StoreKey
  next_account queue_counter : StoreKey

-- `queueName` of `internal/queue/queue.go`, the one name that rows of the queue have.
abbrev pub queue_name : Bytes
queue_name = codes "meta"

abbrev pub encode : StoreKey → Bytes
encode (account a) = account_key a
encode (quota a) = quota_key a
encode (field a c d f) = field_key a c d f
encode (counter a kind sub) = counter_key a kind sub
encode (change_log a c i) = change_log_key a c i
encode (blob_link a b) = blob_link_key a b
encode (index_mailbox_name a n) = index_mailbox_name_key a n
encode (index_email a m u) = index_email_key a m u
encode (index_expunge a m s u) = index_expunge_key a m s u
encode (meta_email e) = meta_email_key e
encode (blob_gc b) = meta_blob_gc_key b
encode (lease n) = meta_lease_key n
encode (vacation a s) = meta_vacation_key a s
encode (queue_row i) = queue_key queue_name i
encode (queue_due t i) = queue_due_key t i
encode next_account = meta_next_account_key
encode queue_counter = queue_counter_key

-- Numbers of 32 and of 64 bits agree.
abbrev pub same32 : ℕ → ℕ → Bool
same32 a b = a % 2 ^ 32 == b % 2 ^ 32

abbrev pub same64 : ℕ → ℕ → Bool
same64 a b = a % 2 ^ 64 == b % 2 ^ 64

abbrev pub same_key : StoreKey → StoreKey → Bool
same_key (account a) (account b) = same32 a b
same_key (quota a) (quota b) = same32 a b
same_key (field a c d f) (field b c' d' f') =
    same32 a b && ((c == c') && (same64 d d' && (f == f')))
same_key (counter a k s) (counter b k' s') = same32 a b && ((k == k') && bytes_eq s s')
same_key (change_log a c i) (change_log b c' j) = same32 a b && ((c == c') && same64 i j)
same_key (blob_link a s) (blob_link b s') = same32 a b && bytes_eq s s'
same_key (index_mailbox_name a s) (index_mailbox_name b s') = same32 a b && bytes_eq s s'
same_key (index_email a m u) (index_email b m' u') = same32 a b && (same64 m m' && same64 u u')
same_key (index_expunge a m s u) (index_expunge b m' s' u') =
    same32 a b && (same64 m m' && (same64 s s' && same64 u u'))
same_key (meta_email s) (meta_email s') = bytes_eq s s'
same_key (blob_gc s) (blob_gc s') = bytes_eq s s'
same_key (lease s) (lease s') = bytes_eq s s'
same_key (vacation a s) (vacation b s') = bytes_eq (a ++ 0x1f ∷ s) (b ++ 0x1f ∷ s')
same_key (queue_row i) (queue_row j) = same64 i j
same_key (queue_due t i) (queue_due u j) = same64 t u && same64 i j
same_key next_account next_account = true
same_key queue_counter queue_counter = true
same_key _ _ = false

pub bytes_eq-be4 :
    (x y : ℕ) (c d : Bytes) → bytes_eq (be 4 x ++ c) (be 4 y ++ d) ≡ (same32 x y && bytes_eq c d)
bytes_eq-be4 x y c d =
    ap (λ l. bytes_eq (l ++ c) (be 4 y ++ d)) (sym (be4_mod x))
    ∙ ap (λ l. bytes_eq (be 4 (x % 2 ^ 32) ++ c) (l ++ d)) (sym (be4_mod y))
    ∙ ground
        (arith, compare_bytes-be_append 4 (x % 2 ^ 32) (y % 2 ^ 32) c d (omega arith) (omega arith))

bytes_eq-be8 :
    (x y : ℕ) (c d : Bytes) → bytes_eq (be 8 x ++ c) (be 8 y ++ d) ≡ (same64 x y && bytes_eq c d)
bytes_eq-be8 x y c d =
    ap (λ l. bytes_eq (l ++ c) (be 8 y ++ d)) (sym (be8_mod x))
    ∙ ap (λ l. bytes_eq (be 8 (x % 2 ^ 64) ++ c) (l ++ d)) (sym (be8_mod y))
    ∙ ground
        (arith, compare_bytes-be_append 8 (x % 2 ^ 64) (y % 2 ^ 64) c d (omega arith) (omega arith))

pub bytes_eq-be8_end : (x y : ℕ) → bytes_eq (be 8 x) (be 8 y) ≡ same64 x y
bytes_eq-be8_end x y =
    ap (λ l. bytes_eq l (be 8 y)) (sym (be8_mod x))
    ∙ ap (λ l. bytes_eq (be 8 (x % 2 ^ 64)) l) (sym (be8_mod y))
    ∙ ground (arith, compare_bytes-be 8 (x % 2 ^ 64) (y % 2 ^ 64) (omega arith) (omega arith))

bytes_eq-be4_end : (x y : ℕ) → bytes_eq (be 4 x) (be 4 y) ≡ same32 x y
bytes_eq-be4_end x y =
    ap (λ l. bytes_eq l (be 4 y)) (sym (be4_mod x))
    ∙ ap (λ l. bytes_eq (be 4 (x % 2 ^ 32)) l) (sym (be4_mod y))
    ∙ ground (arith, compare_bytes-be 4 (x % 2 ^ 32) (y % 2 ^ 32) (omega arith) (omega arith))

-- Two keys of the store have the same bytes exactly if they are of one kind and agree in every part,
-- numbers of accounts up to 32 bits and other numbers up to 64; the account and the sender of a
-- vacation key count as one part, joined by the byte 0x1f.
pub bytes_eq-encode : (k j : StoreKey) → bytes_eq (encode k) (encode j) ≡ same_key k j
unfolding compare_bytes account_key field_key counter_key change_log_key quota_key blob_link_key
    meta_email_key meta_next_account_key meta_blob_gc_key index_mailbox_name_key index_email_key
    index_expunge_key meta_lease_key meta_vacation_key queue_key queue_due_key queue_counter_key
bytes_eq-encode (account a) (account b) = ground (arith, bytes_eq-be4_end a b)
bytes_eq-encode (quota a) (quota b) = ground (arith, bytes_eq-be4_end a b)
bytes_eq-encode (field a c d f) (field b c' d' f') = simp append_assoc (
    ground (
      arith,
      bytes_eq-be4 a b (c ∷ be 8 d ++ f ∷ []) (c' ∷ be 8 d' ++ f' ∷ []),
      bytes_eq-be8 d d' (f ∷ []) (f' ∷ []),
    ))
bytes_eq-encode (counter a k s) (counter b k' s') =
    ground (arith, bytes_eq-be4 a b (k ∷ s) (k' ∷ s'))
bytes_eq-encode (change_log a c i) (change_log b c' j) =
    simp append_assoc
      (ground (arith, bytes_eq-be4 a b (c ∷ be 8 i) (c' ∷ be 8 j), bytes_eq-be8_end i j))
bytes_eq-encode (blob_link a s) (blob_link b s') = ground (arith, bytes_eq-be4 a b s s')
bytes_eq-encode (index_mailbox_name a s) (index_mailbox_name b s') =
    ground (arith, bytes_eq-be4 a b (b'n' ∷ s) (b'n' ∷ s'))
bytes_eq-encode (index_email a m u) (index_email b m' u') = simp append_assoc (
    ground (
      arith,
      bytes_eq-be4 a b (b'e' ∷ be 8 m ++ be 8 u) (b'e' ∷ be 8 m' ++ be 8 u'),
      bytes_eq-be8 m m' (be 8 u) (be 8 u'),
      bytes_eq-be8_end u u',
    ))
bytes_eq-encode (index_expunge a m s u) (index_expunge b m' s' u') = simp append_assoc (
    ground (
      arith,
      bytes_eq-be4 a b (b'x' ∷ be 8 m ++ (be 8 s ++ be 8 u))
          (b'x' ∷ be 8 m' ++ (be 8 s' ++ be 8 u')),
      bytes_eq-be8 m m' (be 8 s ++ be 8 u) (be 8 s' ++ be 8 u'),
      bytes_eq-be8 s s' (be 8 u) (be 8 u'),
      bytes_eq-be8_end u u',
    ))
bytes_eq-encode (meta_email s) (meta_email s') = refl
bytes_eq-encode (blob_gc s) (blob_gc s') = refl
bytes_eq-encode (lease s) (lease s') = refl
bytes_eq-encode (vacation a s) (vacation b s') = refl
bytes_eq-encode (queue_row i) (queue_row j) = ground (arith, bytes_eq-be8_end i j)
bytes_eq-encode (queue_due t i) (queue_due u j) =
    ground (arith, bytes_eq-be8 t u (be 8 i) (be 8 j), bytes_eq-be8_end i j)
bytes_eq-encode next_account next_account = refl
bytes_eq-encode queue_counter queue_counter = refl
bytes_eq-encode (account a) (counter b k s) =
    ap (λ l. bytes_eq l (be 4 b ++ k ∷ s)) (sym (append-nil (be 4 a)))
    ∙ ground (arith, bytes_eq-be4 a b [] (k ∷ s))
bytes_eq-encode (counter b k s) (account a) =
    ap (λ l. bytes_eq (be 4 b ++ k ∷ s) l) (sym (append-nil (be 4 a)))
    ∙ ground (arith, bytes_eq-be4 b a (k ∷ s) [])
bytes_eq-encode (index_mailbox_name a s) (index_email b m u) =
    simp append_assoc (ground (arith, bytes_eq-be4 a b (b'n' ∷ s) (b'e' ∷ be 8 m ++ be 8 u)))
bytes_eq-encode (index_mailbox_name a s) (index_expunge b m t u) =
    simp append_assoc
      (ground (arith, bytes_eq-be4 a b (b'n' ∷ s) (b'x' ∷ be 8 m ++ (be 8 t ++ be 8 u))))
bytes_eq-encode (index_email b m u) (index_mailbox_name a s) =
    simp append_assoc (ground (arith, bytes_eq-be4 b a (b'e' ∷ be 8 m ++ be 8 u) (b'n' ∷ s)))
bytes_eq-encode (index_expunge b m t u) (index_mailbox_name a s) =
    simp append_assoc
      (ground (arith, bytes_eq-be4 b a (b'x' ∷ be 8 m ++ (be 8 t ++ be 8 u)) (b'n' ∷ s)))
bytes_eq-encode (index_email a n v) (index_expunge b m t u) = simp append_assoc (
    ground
      (arith, bytes_eq-be4 a b (b'e' ∷ be 8 n ++ be 8 v) (b'x' ∷ be 8 m ++ (be 8 t ++ be 8 u))))
bytes_eq-encode (index_expunge b m t u) (index_email a n v) = simp append_assoc (
    ground
      (arith, bytes_eq-be4 b a (b'x' ∷ be 8 m ++ (be 8 t ++ be 8 u)) (b'e' ∷ be 8 n ++ be 8 v)))
bytes_eq-encode _ _ = refl
