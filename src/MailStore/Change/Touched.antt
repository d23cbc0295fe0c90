-- ===== src/MailStore/Change/Touched.antt =====
-- The keys that the renaming of a mailbox may write (`internal/mailstore/kv_mailbox.go`,
-- `RenameMailbox`), and that no other key is one of them.
use mathlib.Core.List.{append_assoc}
use mailezine.Prelude.{
  List, ◌++◌, true, ℕ, ◌≡◌, refl, Bool, false, [], ◌∷◌, ◌==◌, ◌&&◌, ◌||◌, arith,
}
use mailezine.Bytes.{compare_bytes, Bytes, bytes_eq}
use mailezine.Store.Key.BigEndian.{be}
use mailezine.Store.Key.{
  index_email_prefix, counter_key, change_log_key, index_mailbox_name_key, field_key,
}
use mailezine.Store.Key.Typed.{
  same64, bytes_eq-be4, StoreKey, encode, same32, same_key, field, counter, change_log,
  index_mailbox_name,
}
use mailezine.MailStore.Message.{in_uids}
use mailezine.Store.Email.{change_counter_key}
use mailezine.Store.Apart.{apart}

-- Some number of the list is this one, in 64 bits.
abbrev pub is_among : List ℕ → ℕ → Bool
is_among [] d = false
is_among (i ∷ ids) d = same64 i d || is_among ids d

-- The keys that the renaming of a mailbox may write, `ids` being the documents of its messages: the
-- rows of the two names, the name in the document of the mailbox, the mailbox in the documents
-- of its messages, and the change log of the account.
abbrev pub is_renamed : ℕ → ℕ → List ℕ → Bytes → Bytes → StoreKey → Bool
is_renamed a mb_id ids old_name new_name (index_mailbox_name b n) =
    same32 a b && (bytes_eq old_name n || bytes_eq new_name n)
is_renamed a mb_id ids old_name new_name (field b c d f) =
    same32 a b
    && (((1 == c) && ((1 == f) && same64 mb_id d)) || ((2 == c) && ((3 == f) && is_among ids d)))
is_renamed a mb_id ids old_name new_name (counter b kind s) = same32 a b && (2 == kind)
is_renamed a mb_id ids old_name new_name (change_log b c i) = same32 a b
is_renamed a mb_id ids old_name new_name _ = false

-- Such a key is none of those.
abbrev pub IsApart : ℕ → ℕ → List ℕ → Bytes → Bytes → Bytes → Type 0
IsApart a mb_id ids old_name new_name k =
    (bytes_eq (index_mailbox_name_key a old_name) k ≡ false)
    × (bytes_eq (index_mailbox_name_key a new_name) k ≡ false)
    × (bytes_eq (field_key a 1 mb_id 1) k ≡ false)
    × ((d : ℕ) → in_uids ids d ≡ true → bytes_eq (field_key a 2 d 3) k ≡ false)
    × (bytes_eq (change_counter_key a) k ≡ false)
    × ((c id : ℕ) → bytes_eq (encode (change_log a c id)) k ≡ false)

abbrev pub IsNone : ℕ → ℕ → List ℕ → Bytes → Bytes → StoreKey → Type 0
IsNone a mb_id ids old_name new_name k =
    (same_key (index_mailbox_name a old_name) k ≡ false)
    × (same_key (index_mailbox_name a new_name) k ≡ false)
    × (same_key (field a 1 mb_id 1) k ≡ false)
    × ((d : ℕ) → in_uids ids d ≡ true → same_key (field a 2 d 3) k ≡ false)
    × (same_key (counter a 2 []) k ≡ false)
    × ((c id : ℕ) → same_key (change_log a c id) k ≡ false)

same64-is_among :
    (ids : List ℕ) (d d' : ℕ) → in_uids ids d ≡ true → same64 d d' ≡ true → is_among ids d' ≡ true
same64-is_among [] d d' h g = absurd (cc h)
same64-is_among (i ∷ ids) d d' h g = ground (arith, same64-is_among ids d d', h, g)

is_renamed-IsNone :
    (a mb_id : ℕ) (ids : List ℕ) (old_name new_name : Bytes) (k : StoreKey)
    → is_renamed a mb_id ids old_name new_name k ≡ false
    → IsNone a mb_id ids old_name new_name k
is_renamed-IsNone a mb ids o n (index_mailbox_name b m) h =
    (ground arith, ground arith, refl, λ d i. refl, refl, λ c id. refl)
is_renamed-IsNone a mb ids o n (field b c d f) h = (
  refl,
  refl,
  ground arith,
  λ d' i. ground (arith, same64-is_among ids d' d i, h),
  refl,
  λ c' id. refl,
)
is_renamed-IsNone a mb ids o n (counter b kind s) h =
    (refl, refl, refl, λ d i. refl, ground arith, λ c id. refl)
is_renamed-IsNone a mb ids o n (change_log b c i) h =
    (refl, refl, refl, λ d i. refl, refl, λ c' id. ground arith)
is_renamed-IsNone a mb ids o n _ h = (refl, refl, refl, λ d i. refl, refl, λ c id. refl)

pub is_renamed-IsApart :
    (a mb_id : ℕ) (ids : List ℕ) (old_name new_name : Bytes) (k : StoreKey)
    → is_renamed a mb_id ids old_name new_name k ≡ false
    → IsApart a mb_id ids old_name new_name (encode k)
is_renamed-IsApart a mb ids o n k h =
    let (old, new, mailbox, message, count, log) = is_renamed-IsNone a mb ids o n k h in
    (
      apart (index_mailbox_name a o) k old,
      apart (index_mailbox_name a n) k new,
      apart (field a 1 mb 1) k mailbox,
      λ d i. apart (field a 2 d 3) k (message d i),
      apart (counter a 2 []) k count,
      λ c id. apart (change_log a c id) k (log c id),
    )

-- The index rows of messages are none of the other keys.
pub rows_apart :
    (a b mb_id : ℕ) (n r : Bytes)
    → bytes_eq (index_mailbox_name_key a n) (index_email_prefix b mb_id ++ r) ≡ false
unfolding index_mailbox_name_key index_email_prefix compare_bytes
rows_apart a b mb n r =
    simp append_assoc (ground (arith, bytes_eq-be4 a b (b'n' ∷ n) (b'e' ∷ be 8 mb ++ r)))

pub rows_apart_field :
    (a b mb_id c d f : ℕ) (r : Bytes)
    → bytes_eq (field_key a c d f) (index_email_prefix b mb_id ++ r) ≡ false
unfolding field_key index_email_prefix compare_bytes
rows_apart_field a b mb c d f r = refl

pub rows_apart_counter :
    (a b mb_id : ℕ) (r : Bytes)
    → bytes_eq (change_counter_key a) (index_email_prefix b mb_id ++ r) ≡ false
unfolding counter_key index_email_prefix compare_bytes
rows_apart_counter a b mb r = refl

pub rows_apart_log :
    (a b mb_id c id : ℕ) (r : Bytes)
    → bytes_eq (encode (change_log a c id)) (index_email_prefix b mb_id ++ r) ≡ false
unfolding change_log_key index_email_prefix compare_bytes
rows_apart_log a b mb c id r = refl
