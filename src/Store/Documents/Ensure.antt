-- ===== src/Store/Documents/Ensure.antt =====
-- The document of a mailbox is made once (`EnsureMailboxDoc` of `internal/store/doc.go`).
use mailezine.Prelude.{
  ℕ, ◌≡◌, refl, ap, ◌∙◌, [], ◌∷◌, none, some, arith, length, ◌==◌, Bool-cases, inl, inr,
}
use mailezine.Bytes.{Bytes}
use mailezine.Store.Key.BigEndian.{be, be_value, be_value-be, length-be}
use mailezine.Store.Key.{counter_key, index_mailbox_name_key, field_key}
use mailezine.Store.Key.Typed.{index_mailbox_name, field}
use mailezine.Store.Kv.{Kv, put_op}
use mailezine.Store.Txn.{TxnKv, ok, with_txn, settle}
use mailezine.Store.Counters.{next, read_counter, be_uint64}
use mailezine.Store.Documents.{
  Fields, create_mailbox_doc, ensure_found, ensure_mailbox_doc, ensure_mailbox_doc_txn,
  ordered_field_ops,
}
use mailezine.Store.View.{get-batch_last, OnOk, OnOk-bind, with_txn-OnOk_value}
use mailezine.Store.Apart.{apart, ordered_field_ops-Avoids}

-- The index leads from the name to the document.
abbrev IsIndexed : (t : Kv) → ℕ → Bytes → ℕ × t.State → Type 0
IsIndexed t a name (id, s) =
    (v : Bytes) × (t.get s (index_mailbox_name_key a name) ≡ some v)
    × (length v ≡ 8)
    × (be_value 0 v ≡ id)

module _ (t : Kv) (a : ℕ) (name : Bytes) (fields : ℕ → Fields) where
  create-IsIndexed :
      (s : t.State) → OnOk (IsIndexed t a name) (create_mailbox_doc t a name fields s)
  create-IsIndexed s = OnOk-bind _ (read_counter (t.get s (counter_key a 1 (1 ∷ [])))) _ λ cur _. (
    be 8 (next cur),
    get-batch_last t s
        (put_op (counter_key a 1 (1 ∷ [])) (be_uint64 (next cur))
          ∷ put_op (field_key a 1 (next cur) 0) (1 ∷ [])
          ∷ [])
        (ordered_field_ops a 1 (next cur) (fields (next cur))) (index_mailbox_name_key a name)
        (be_uint64 (next cur))
        (ordered_field_ops-Avoids a 1 (next cur) (fields (next cur)) (index_mailbox_name_key a name)
          (λ f. apart (field a 1 (next cur) f) (index_mailbox_name a name) refl)),
    length-be 8 (next cur),
    be_value-be 8 (next cur) (omega arith),
  )

  found-IsIndexed :
      (s : t.State) (v : Bytes)
      → t.get s (index_mailbox_name_key a name) ≡ some v
      → OnOk (IsIndexed t a name) (ensure_found t a name fields s (some v))
  found-IsIndexed s v h = elim (Bool-cases (length v == 8)) [
    | inl eight ↦ rw eight (v, h, ground (arith, eight), refl)
    | inr other ↦ rw other tt
  ]

  ensure-IsIndexed :
      (s : t.State) → OnOk (IsIndexed t a name) (ensure_mailbox_doc_txn t a name fields s)
  unfolding ensure_mailbox_doc_txn
  ensure-IsIndexed s =
      elim (t.get s (index_mailbox_name_key a name))
          as (λ o.
            t.get s (index_mailbox_name_key a name) ≡ o
            → OnOk (IsIndexed t a name) (ensure_found t a name fields s o)) [
              | none ↦ λ _. create-IsIndexed s
              | some v ↦ λ h. found-IsIndexed s v h
            ]
        refl

module _ (db : TxnKv) where
  open db use {kv, ops, begin, commit}

  -- Once a mailbox has its document, a second call for the name, whatever fields it would write,
  -- returns the same document and changes no key.
  pub ensure_mailbox_doc_again :
      (a : ℕ) (name : Bytes) (fields fields' : ℕ → Fields) (s : kv.State) (id : ℕ)
      → (ensure_mailbox_doc db a name fields s).0 ≡ ok id
      → let s' = (ensure_mailbox_doc db a name fields s).1 in
        ((ensure_mailbox_doc db a name fields' s').0 ≡ ok id)
        × ((k : Bytes) → kv.get (ensure_mailbox_doc db a name fields' s').1 k ≡ kv.get s' k)
  unfolding ensure_mailbox_doc ensure_mailbox_doc_txn with_txn
  ensure_mailbox_doc_again a name fields fields' s id h =
      let f' = ensure_mailbox_doc_txn ops a name fields' in
      with_txn-OnOk_value db (ensure_mailbox_doc_txn ops a name fields) (IsIndexed ops a name)
        (λ s'.
          ((with_txn db f' s').0 ≡ ok id)
          × ((k : Bytes) → kv.get (with_txn db f' s').1 k ≡ kv.get s' k))
        s id (ensure-IsIndexed ops a name fields (begin s))
        (λ t (v, held, eight, value).
          let s' = commit t in
          let again : with_txn db f' s' ≡ (ok id, commit (begin s')) =
            ap (λ o. settle db s' (ensure_found ops a name fields' (begin s') o))
              (db.get-begin s' (index_mailbox_name_key a name)
                ∙ db.get-commit t (index_mailbox_name_key a name)
                ∙ held)
            ∙ rw eight (ap (λ n. (ok n, commit (begin s'))) value) in
          (
            ap (λ x. x.0) again,
            λ k. ap (λ x. kv.get x.1 k) again ∙ db.get-commit (begin s') k ∙ db.get-begin s' k,
          ))
        h
