-- ===== src/MailStore/Mailbox/Keeps.antt =====
-- What the search for a mailbox leaves alone (`internal/mailstore/kv.go`, `mailboxDocID`).
use mailezine.Prelude.{ℕ, ◌≡◌, refl, false, List, [], ◌∷◌, Option, none, some, length, ◌==◌}
use mailezine.Bytes.{Bytes, bytes_eq}
use mailezine.Store.Key.{index_mailbox_name_key}
use mailezine.Store.Txn.{TxnKv, Result, ok, err}
use mailezine.Store.Counters.{be_uint64}
use mailezine.Store.Documents.{Fields, get_document_fields, list_document_ids}
use mailezine.MailStore.Calls.{World, pure}
use mailezine.MailStore.Calls.Keeps.{Keeps, KeepsAt, go_on-Keeps, put_raw-Keeps, either-keeps}
use mailezine.MailStore.Mailbox.{
  find_by_scan, find_indexed, find_named, field_value, has_name, mailbox_doc_id, mb_field_name,
  check_named, be_value,
}

module _ (db : TxnKv) (k : Bytes) where
  open db use {kv}

  module _ (acct : ℕ) (name : Bytes)
      (apart : bytes_eq (index_mailbox_name_key acct name) k ≡ false) where
    check_named-keeps :
        (id : ℕ) (w : World kv.State) (rest : Result ℕ × World kv.State) (r : Result Fields)
        → KeepsAt kv k rest w
        → KeepsAt kv k (check_named db acct name id w rest r) w
    check_named-keeps id w rest (err e) h = refl
    check_named-keeps id w rest (ok fields) h =
        either-keeps kv k (bytes_eq (field_value mb_field_name fields) name) _ rest w
          (go_on-Keeps kv k (λ _. pure id) _ w
            (put_raw-Keeps kv k (index_mailbox_name_key acct name) (be_uint64 id) apart w)
            (λ _ w'. refl))
          h

    find_named-Keeps : (ids : List ℕ) → Keeps kv k (find_named db acct name ids)
    unfolding find_named
    find_named-Keeps [] w = refl
    find_named-Keeps (id ∷ ids) w =
        check_named-keeps id w (find_named db acct name ids w)
          (get_document_fields kv acct 1 id w.store) (find_named-Keeps ids w)

    find_by_scan-Keeps : Keeps kv k (find_by_scan db acct name)
    unfolding find_by_scan
    find_by_scan-Keeps w =
        go_on-Keeps kv k (find_named db acct name) (list_document_ids kv acct 1 w.store, w) w refl
          (λ ids. find_named-Keeps ids)

    find_indexed-Keeps : (o : Option Bytes) → Keeps kv k (find_indexed db acct name o)
    find_indexed-Keeps none w = find_by_scan-Keeps w
    find_indexed-Keeps (some v) w =
        let by_scan = find_by_scan db acct name w in
        either-keeps kv k (length v == 8) _ by_scan w
          (either-keeps kv k
            (has_name db name (get_document_fields kv acct 1 (be_value 0 v) w.store))
            (ok (be_value 0 v), w) by_scan w refl (find_by_scan-Keeps w))
          (find_by_scan-Keeps w)

    -- Only the name row can change.
    pub mailbox_doc_id-Keeps : Keeps kv k (mailbox_doc_id db acct name)
    unfolding mailbox_doc_id
    mailbox_doc_id-Keeps w =
        find_indexed-Keeps (kv.get w.store (index_mailbox_name_key acct name)) w
