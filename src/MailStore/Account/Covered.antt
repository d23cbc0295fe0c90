-- ===== src/MailStore/Account/Covered.antt =====
-- Which keys of `internal/store/key.go` the prefixes of `DeleteAccount`
-- (`internal/mailstore/kv_mailbox.go`) cover.
use mathlib.Core.List.{append_assoc, append-nil}
use mailezine.Prelude.{
  ℕ, ◌%◌, ◌^◌, ◌≡◌, refl, ◌∙◌, sym, ap, Bool, true, false, List, [], ◌∷◌, ◌++◌, ◌&&◌, ◌||◌, arith,
  ◌==◌, take, take-append,
}
use mailezine.Bytes.{Bytes, has_prefix}
use mailezine.Store.Key.BigEndian.{be, be4_mod, has_prefix-be, length-be}
use mailezine.Store.Key.{
  account_key, field_key, counter_key, change_log_key, quota_key, blob_link_key, meta_email_key,
  meta_next_account_key, meta_blob_gc_key, index_mailbox_name_key, index_email_key,
  index_expunge_key, collection_key, change_log_prefix, meta_lease_key, meta_vacation_key,
  queue_key, queue_due_key, queue_counter_key,
}
use mailezine.Store.Key.Typed.{
  StoreKey, encode, same32, account, quota, field, counter, change_log, blob_link,
  index_mailbox_name, index_email, index_expunge, meta_email, blob_gc, next_account, lease,
  vacation, queue_row, queue_due, queue_counter, lease, vacation, queue_row,
}
use mailezine.MailStore.Account.{account_prefixes}

-- Some prefix of the list covers the key.
abbrev pub any_prefix : List Bytes → Bytes → Bool
any_prefix [] k = false
any_prefix (p ∷ ps) k = has_prefix p k || any_prefix ps k

abbrev pub is_collection : ℕ → Bool
is_collection c =
    (1 == c) || ((2 == c) || ((3 == c) || ((4 == c) || ((5 == c) || ((6 == c) || (7 == c))))))

-- The data of an account: the documents and the change log of the seven collections, the
-- index, the counters of documents and of changes, the quota and the blob links.
abbrev pub is_owned : ℕ → StoreKey → Bool
is_owned a (field b c d f) = same32 a b && is_collection c
is_owned a (change_log b c i) = same32 a b && is_collection c
is_owned a (counter b k s) = same32 a b && ((1 == k) || (2 == k))
is_owned a (quota b) = same32 a b
is_owned a (blob_link b s) = same32 a b
is_owned a (index_mailbox_name b n) = same32 a b
is_owned a (index_email b m u) = same32 a b
is_owned a (index_expunge b m s u) = same32 a b
is_owned a _ = false

has_prefix-be4 :
    (x y : ℕ) (c d : Bytes)
    → has_prefix (be 4 x ++ c) (be 4 y ++ d) ≡ (same32 x y && has_prefix c d)
has_prefix-be4 x y c d =
    ap (λ l. has_prefix (l ++ c) (be 4 y ++ d)) (sym (be4_mod x))
    ∙ ap (λ l. has_prefix (be 4 (x % 2 ^ 32) ++ c) (l ++ d)) (sym (be4_mod y))
    ∙ ground (arith, has_prefix-be 4 (x % 2 ^ 32) (y % 2 ^ 32) c d (omega arith) (omega arith))

has_prefix-be4_end : (x y : ℕ) (d : Bytes) → has_prefix (be 4 x) (be 4 y ++ d) ≡ same32 x y
unfolding has_prefix
has_prefix-be4_end x y d =
    ap (λ l. has_prefix l (be 4 y ++ d)) (sym (append-nil (be 4 x)))
    ∙ has_prefix-be4 x y [] d
    ∙ ground arith

index_prefix : (a : ℕ) → take 4 (be 4 a ++ b'n' ∷ []) ≡ be 4 a
index_prefix a = take-append 4 (be 4 a) (b'n' ∷ []) (length-be 4 a)

has_prefix-column :
    (a b c c' : ℕ) (rest : Bytes)
    → has_prefix (be 4 a ++ c ∷ []) (be 4 b ++ c' ∷ rest) ≡ (same32 a b && (c == c'))
unfolding has_prefix
has_prefix-column a b c c' rest = has_prefix-be4 a b (c ∷ []) (c' ∷ rest) ∙ ground arith

spread :
    (s p q r t u v w : Bool)
    → ((s && p)
        || ((s && q)
            || ((s && r) || ((s && t) || ((s && u) || ((s && v) || ((s && w) || false)))))))
      ≡ (s && (p || (q || (r || (t || (u || (v || w)))))))
spread false p q r t u v w = refl
spread true p q r t u v false = refl
spread true p q r t u v true = refl

spread_two : (s p q : Bool) → ((s && p) || ((s && q) || false)) ≡ (s && (p || q))
spread_two false p q = refl
spread_two true p false = refl
spread_two true p true = refl

seven_columns :
    (a b c : ℕ) (rest : Bytes)
    → (has_prefix (be 4 a ++ 1 ∷ []) (be 4 b ++ c ∷ rest)
        || (has_prefix (be 4 a ++ 2 ∷ []) (be 4 b ++ c ∷ rest)
            || (has_prefix (be 4 a ++ 3 ∷ []) (be 4 b ++ c ∷ rest)
                || (has_prefix (be 4 a ++ 4 ∷ []) (be 4 b ++ c ∷ rest)
                    || (has_prefix (be 4 a ++ 5 ∷ []) (be 4 b ++ c ∷ rest)
                        || (has_prefix (be 4 a ++ 6 ∷ []) (be 4 b ++ c ∷ rest)
                            || (has_prefix (be 4 a ++ 7 ∷ []) (be 4 b ++ c ∷ rest) || false)))))))
      ≡ (same32 a b && is_collection c)
seven_columns a b c rest =
    rw
      (
        has_prefix-column a b 1 c rest,
        has_prefix-column a b 2 c rest,
        has_prefix-column a b 3 c rest,
        has_prefix-column a b 4 c rest,
        has_prefix-column a b 5 c rest,
        has_prefix-column a b 6 c rest,
        has_prefix-column a b 7 c rest,
      )
      (spread (same32 a b) (1 == c) (2 == c) (3 == c) (4 == c) (5 == c) (6 == c) (7 == c))

two_columns :
    (a b c : ℕ) (rest : Bytes)
    → (has_prefix (be 4 a ++ 1 ∷ []) (be 4 b ++ c ∷ rest)
        || (has_prefix (be 4 a ++ 2 ∷ []) (be 4 b ++ c ∷ rest) || false))
      ≡ (same32 a b && ((1 == c) || (2 == c)))
two_columns a b c rest =
    rw (has_prefix-column a b 1 c rest, has_prefix-column a b 2 c rest)
      (spread_two (same32 a b) (1 == c) (2 == c))

column_of_account : (a b c : ℕ) → has_prefix (be 4 a ++ c ∷ []) (be 4 b) ≡ false
unfolding has_prefix
column_of_account a b c =
    ap (has_prefix (be 4 a ++ c ∷ [])) (sym (append-nil (be 4 b)))
    ∙ has_prefix-be4 a b (c ∷ []) []
    ∙ ground arith

whole_account : (a b : ℕ) → has_prefix (be 4 a) (be 4 b) ≡ same32 a b
whole_account a b = ap (has_prefix (be 4 a)) (sym (append-nil (be 4 b))) ∙ has_prefix-be4_end a b []

pub any_prefix-account_prefixes :
    (a : ℕ) (k : StoreKey) → any_prefix (account_prefixes a) (encode k) ≡ is_owned a k
unfolding has_prefix account_key field_key counter_key change_log_key quota_key blob_link_key
    meta_email_key meta_next_account_key meta_blob_gc_key index_mailbox_name_key index_email_key
    index_expunge_key collection_key change_log_prefix meta_lease_key meta_vacation_key queue_key
    queue_due_key queue_counter_key
any_prefix-account_prefixes a (account b) =
    rw (column_of_account a b 1, column_of_account a b 2) refl
any_prefix-account_prefixes a (quota b) = rw (whole_account a b) (ground arith)
any_prefix-account_prefixes a (field b c d f) =
    simp append_assoc (seven_columns a b c (be 8 d ++ f ∷ []))
any_prefix-account_prefixes a (counter b k s) = two_columns a b k s
any_prefix-account_prefixes a (change_log b c i) = simp append_assoc (seven_columns a b c (be 8 i))
any_prefix-account_prefixes a (blob_link b s) =
    rw append-nil (ground (arith, has_prefix-be4_end a b s))
any_prefix-account_prefixes a (index_mailbox_name b n) =
    rw (index_prefix a) (ground (arith, has_prefix-be4_end a b (b'n' ∷ n)))
any_prefix-account_prefixes a (index_email b m u) =
    rw (index_prefix a)
      (simp append_assoc (ground (arith, has_prefix-be4_end a b (b'e' ∷ be 8 m ++ be 8 u))))
any_prefix-account_prefixes a (index_expunge b m s u) = rw (index_prefix a) (
    simp append_assoc
      (ground (arith, has_prefix-be4_end a b (b'x' ∷ be 8 m ++ (be 8 s ++ be 8 u)))))
any_prefix-account_prefixes a (meta_email e) = refl
any_prefix-account_prefixes a (blob_gc s) = refl
any_prefix-account_prefixes a (lease n) = refl
any_prefix-account_prefixes a (vacation b s) = refl
any_prefix-account_prefixes a (queue_row i) = refl
any_prefix-account_prefixes a (queue_due t i) = refl
any_prefix-account_prefixes a next_account = refl
any_prefix-account_prefixes a queue_counter = refl
