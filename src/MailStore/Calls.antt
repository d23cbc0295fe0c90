-- ===== src/MailStore/Calls.antt =====
-- Calls of the mail store (`internal/mailstore/kv.go`): a state of the engine with the cache of
-- identifiers of `KV.idCache`, and steps that fail or go on. An error keeps what was written before.
pub mod Keeps
use mailezine.Prelude.{
  ℕ, ◌≡◌, Bool, true, false, List, [], ◌∷◌, Option, none, some, if◌then◌else◌, ltb, ◌==◌, ◌&&◌, ◌+◌,
}
use mailezine.Bytes.{Bytes, bytes_eq}
use mailezine.Bytes.Assoc
use mailezine.Bytes.Assoc.{IsSorted}
use mailezine.Store.Kv.{Kv, Entry, put_op, delete_op}
use mailezine.Store.MemKv.{in_range}
use mailezine.Store.Txn.{TxnKv, Result, ok, err, not_found, Error}
use mailezine.Store.Range.{RangeKv}

-- An engine with transactions and range scans.
pub record Engine : Type 1 where
  pub db : TxnKv
  pub scan_range : db.kv.State → Bytes → Option Bytes → List Entry
  pub scan_range-IsSorted :
      (s : db.kv.State) (start : Bytes) (end : Option Bytes) → IsSorted (scan_range s start end)
  pub get-scan_range :
      (s : db.kv.State) (start : Bytes) (end : Option Bytes) (k : Bytes)
      → Assoc.get k (scan_range s start end)
        ≡ (if in_range start end k then db.kv.get s k else none)

abbrev pub ranged : Engine → RangeKv
ranged e = record {
  kv = e.db.kv;
  scan_range = e.scan_range;
  scan_range-IsSorted = e.scan_range-IsSorted;
  get-scan_range = e.get-scan_range;
}

-- `idCacheKeyAccount`, `idCacheKeyMailbox`
pub data IdKey : Type 0 where
  account_id : Bytes → IdKey
  mailbox_id : ℕ → Bytes → IdKey

abbrev pub same_id : IdKey → IdKey → Bool
same_id (account_id e) (account_id e') = bytes_eq e e'
same_id (mailbox_id a n) (mailbox_id a' n') = (a == a') && bytes_eq n n'
same_id _ _ = false

-- `idCacheEntry`: times count nanoseconds.
pub record IdEntry : Type 0 where
  pub key : IdKey
  pub id : ℕ
  pub expires : ℕ

abbrev pub IdCache : Type 0
IdCache = List IdEntry

-- `idCacheTTL`
abbrev pub id_cache_ttl : ℕ
id_cache_ttl = 60_000_000_000

-- `idCache.Load` with the test of the expiry.
unfoldable pub load_id : ℕ → IdKey → IdCache → Option ℕ
load_id now key [] = none
load_id now key (e ∷ ids) =
    if same_id key e.key
    then (if ltb now e.expires then some e.id else none)
    else load_id now key ids

-- `idCache.Delete` of the keys that pass the test.
unfoldable pub drop_ids : (IdKey → Bool) → IdCache → IdCache
drop_ids gone [] = []
drop_ids gone (e ∷ ids) = let rest = drop_ids gone ids in if gone e.key then rest else e ∷ rest

-- `idCache.Store`
unfoldable pub store_id : ℕ → IdKey → ℕ → IdCache → IdCache
unfolding drop_ids
store_id now key id ids =
    record { key = key; id = id; expires = now + id_cache_ttl } ∷ drop_ids (same_id key) ids

-- The keys that `invalidateAccountIDs` drops.
abbrev pub of_account : Bytes → ℕ → IdKey → Bool
of_account email id (account_id e) = bytes_eq email e
of_account email id (mailbox_id a n) = id == a

-- A step over a state.
abbrev pub Call : Type 0 → Type 0 → Type 0
Call S A = S → Result A × S

abbrev pub go_on : {S A B : Type 0} → (A → Call S B) → Result A × S → Result B × S
go_on f (ok x, s) = f x s
go_on f (err e, s) = (err e, s)

infixl 5 ◌>>=◌
abbrev pub ◌>>=◌ : {S A B : Type 0} → Call S A → (A → Call S B) → Call S B
◌>>=◌ m f s = go_on f (m s)

abbrev pub pure : {S A : Type 0} → A → Call S A
pure x s = (ok x, s)

abbrev pub fail : {S A : Type 0} → Error → Call S A
fail e s = (err e, s)

-- `errors.Is(err, ErrNotFound)`: a handler for that error alone.
abbrev pub if_missing : {S A : Type 0} → Call S A → Result A × S → Result A × S
if_missing h (err not_found, s) = h s
if_missing h (r, s) = (r, s)

abbrev pub or_if_missing : {S A : Type 0} → Call S A → Call S A → Call S A
or_if_missing m h s = if_missing h (m s)

-- One call for each element.
unfoldable pub for_each : {S A : Type 0} → (A → Call S (Unit {0})) → List A → Call S (Unit {0})
for_each f [] s = (ok tt, s)
for_each f (x ∷ xs) s = go_on (λ _. for_each f xs) (f x s)

-- The engine's state with the cache.
pub record World (S : Type 0) : Type 0 where
  pub store : S
  pub ids : IdCache

module _ (kv : Kv) where
  abbrev pub stored : {A : Type 0} → IdCache → Result A × kv.State → Result A × World kv.State
  stored ids (r, s) = (r, record { store = s; ids = ids })

  -- A call of the logical store.
  abbrev pub on_store : {A : Type 0} → Call kv.State A → Call (World kv.State) A
  on_store m w = stored w.ids (m w.store)

  -- A read of the logical store.
  abbrev pub reading : {A : Type 0} → (kv.State → Result A) → Call (World kv.State) A
  reading f w = (f w.store, w)

  -- `GetRaw`
  unfoldable pub get_raw : Bytes → kv.State → Result Bytes
  get_raw k s = elim (kv.get s k) [ none ↦ err not_found | some v ↦ ok v ]

  -- `PutRaw`
  unfoldable pub put_raw : Bytes → Bytes → Call (World kv.State) (Unit {0})
  put_raw k v w = (ok tt, record w { store = kv.batch w.store (put_op k v ∷ []) })

  -- `DeleteRaw`
  unfoldable pub delete_raw : Bytes → Call (World kv.State) (Unit {0})
  delete_raw k w = (ok tt, record w { store = kv.batch w.store (delete_op k ∷ []) })

  abbrev pub forget : (IdKey → Bool) → Call (World kv.State) (Unit {0})
  forget gone w = (ok tt, record w { ids = drop_ids gone w.ids })

  -- A resolution through the cache at a time; only one that succeeds is kept.
  abbrev pub keep_id : ℕ → IdKey → Result ℕ × World kv.State → Result ℕ × World kv.State
  keep_id now key (ok id, w) = (ok id, record w { ids = store_id now key id w.ids })
  keep_id now key (err e, w) = (err e, w)

  abbrev pub cached_or :
      ℕ → IdKey → Call (World kv.State) ℕ → World kv.State → Option ℕ → Result ℕ × World kv.State
  cached_or now key resolve w (some id) = (ok id, w)
  cached_or now key resolve w none = keep_id now key (resolve w)

  unfoldable pub cached_id : ℕ → IdKey → Call (World kv.State) ℕ → Call (World kv.State) ℕ
  unfolding load_id store_id
  cached_id now key resolve w = cached_or now key resolve w (load_id now key w.ids)
