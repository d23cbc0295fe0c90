-- ===== src/Tests/Stores.antt =====
-- The theorems of `Store` at concrete keys and operations.
use mailezine.Prelude.{◌≡◌, arith, List, [], ◌∷◌, some, refl}
use mailezine.Bytes.{has_prefix}
use mailezine.Store.Key.{codes, change_log_key}
use mailezine.Bytes.Assoc
use mailezine.Store.ChangeLog.{Change, decode_change, encode_change_value}
use mailezine.Store.MemKv.{MemoryKv, mem_kv, scan_range, in_range, scan_range-exact}
use mailezine.Store.Range.{changes_since, mem_range}
use mailezine.Store.Range.Cursor.{IsLogged, changes_since-IsLogged}
use mailezine.Store.Kv.{Op, put_op, delete_op}
use mailezine.Store.WriteBuf
use mailezine.Store.WriteBuf.{fresh, append}
use mailezine.Store.WriteBuf.Reads.{get-append-fresh, scan-append-fresh}
use mailezine.Store.MemKv
use mailezine.Store.MemKv.Txn.{fresh_txn, txn_get, txn_append, txn_scan, mem_txn-eq-write_buf}

abbrev stock : MemoryKv
stock = (codes "ab", codes "1") ∷ (codes "b", codes "2") ∷ []

abbrev changes : List Op
changes =
    put_op (codes "ac") (codes "3") ∷ delete_op (codes "ab") ∷ put_op (codes "ac") (codes "4") ∷ []

get-append-fresh_example :
    WriteBuf.get mem_kv (append mem_kv (fresh mem_kv stock) changes) (codes "ac")
    ≡ MemKv.get (MemKv.batch stock changes) (codes "ac")
get-append-fresh_example = get-append-fresh mem_kv stock changes (codes "ac")

scan-append-fresh_example :
    WriteBuf.scan mem_kv (append mem_kv (fresh mem_kv stock) changes) (codes "a")
    ≡ MemKv.scan (MemKv.batch stock changes) (codes "a")
scan-append-fresh_example = scan-append-fresh mem_kv stock changes (codes "a")

mem_txn-eq-write_buf_example :
    (txn_get (txn_append (fresh_txn stock) changes) (codes "ab")
      ≡ WriteBuf.get mem_kv (append mem_kv (fresh mem_kv stock) changes) (codes "ab"))
    × (txn_scan (txn_append (fresh_txn stock) changes) (codes "a")
        ≡ WriteBuf.scan mem_kv (append mem_kv (fresh mem_kv stock) changes) (codes "a"))
mem_txn-eq-write_buf_example = mem_txn-eq-write_buf stock changes (codes "ab") (codes "a")

-- A log of two changes.
abbrev log : MemoryKv
log =
    (change_log_key 1 2 1, encode_change_value 2 5 1)
    ∷ (change_log_key 1 2 2, encode_change_value 2 6 1)
    ∷ []

abbrev second : Change
second = record { collection = 2; doc_id = 6; op = 1; mailbox = []; uid = 0 }

second_held : MemKv.get log (change_log_key 1 2 2) ≡ some (encode_change_value 2 6 1)
unfolding MemKv.get Assoc.get mailezine.Bytes.compare_bytes change_log_key
    mailezine.Store.Key.BigEndian.be
second_held = refl

second_decoded : decode_change (encode_change_value 2 6 1) ≡ some second
unfolding decode_change encode_change_value mailezine.Store.Key.BigEndian.be
second_decoded = refl

changes_since-IsLogged_example : IsLogged (2, second) (changes_since mem_range 1 2 1 log)
changes_since-IsLogged_example =
    changes_since-IsLogged mem_range 1 2 1 2 log (encode_change_value 2 6 1) second (omega arith)
      (omega arith) (omega arith) second_held second_decoded
