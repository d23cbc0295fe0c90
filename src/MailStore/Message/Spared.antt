-- ===== src/MailStore/Message/Spared.antt =====
-- An expunge spares what is not marked (`internal/mailstore/kv_mailbox.go`, `expungeUIDs`).
use mathlib.Core.List.{append_assoc}
use mailezine.Prelude.{
  ◌==◌, ℕ, ◌≡◌, refl, ◌∙◌, ap, Bool, true, false, List, [], ◌∷◌, ◌++◌, if◌then◌else◌, arith, length,
  Bool-cases, inl, inr,
}
use mailezine.Bytes.{Bytes, compare_bytes, bytes_eq, compare_bytes-append}
use mailezine.Store.Key.BigEndian.{be_value, be}
use mailezine.Store.Key.{
  document_key, index_email_key, index_expunge_key, field_key, index_mailbox_name_key,
}
use mailezine.Store.Key.Typed.{same64}
use mailezine.Store.Kv.{put_op, delete_op, Op}
use mailezine.Store.Txn.{not_marked_deleted, not_found, exists, corrupt}
use mailezine.Store.View.{get-batch_apart, Avoids}
use mailezine.Store.Email.Remove.{has_list_token, nothing_scanned, scan_fields}
use mailezine.MailStore.Calls.Keeps.{scan_same, with_txn-keeps}
use mailezine.MailStore.Flags.{flag_deleted}
use mailezine.MailStore.Calls.{reading, ◌>>=◌, Call, Engine, World, go_on, on_store, pure}
use mailezine.MailStore.Message.{
  Email, removal_ops, delete_email, expunge_rest, expunge_targets, expunge_selected, expunge_uids,
  select_targets, mailbox_emails, Result, ok, err,
}
use mailezine.MailStore.Mailbox.{field_value, mailbox_doc_id}
use mailezine.MailStore.Mailbox.Keeps.{mailbox_doc_id-Keeps}
use mailezine.Store.Email.{email_field_uid}
use mailezine.Store.Counters.{be_uint64, bump_mailbox_mod_seq, bump_mod_seq_txn}
use mailezine.Store.Documents.{Fields, get_document_fields}
use mailezine.Store.Accounts.{account_by_email}
use mailezine.MailStore.Message.Unmarked.{removal_of_other, Unmarked, removal_refused}

Avoids-either :
    (k : Bytes) (b : Bool) (x y : List Op) → Avoids k x → Avoids k y → Avoids k (if b then x else y)
Avoids-either k true x y h g = h
Avoids-either k false x y h g = g

named_apart :
    (a d : ℕ) (name r : Bytes)
    → bytes_eq (index_mailbox_name_key a name) (document_key a 2 d ++ r) ≡ false
unfolding index_mailbox_name_key document_key compare_bytes
named_apart a d name r = refl

other_collection :
    (a m f d : ℕ) (r : Bytes) → bytes_eq (field_key a 1 m f) (document_key a 2 d ++ r) ≡ false
unfolding field_key document_key compare_bytes
other_collection a m f d r =
    simp append_assoc
      (ground (arith, compare_bytes-append (be 4 a) (1 ∷ be 8 m ++ f ∷ []) (2 ∷ be 8 d ++ r)))

-- What an expunge adds to the removal of a message is on no key of a document.
removal_ops-Avoids :
    (parse : Bytes → ℕ) (e : Engine) (acct mb_id mod_seq a c d : ℕ) (r : Bytes)
    (found : Result Fields)
    → Avoids (document_key a c d ++ r) (removal_ops parse e acct mb_id mod_seq found)
unfolding document_key index_email_key index_expunge_key compare_bytes
removal_ops-Avoids parse e acct mb_id mod_seq a c d r (err x) = tt
removal_ops-Avoids parse e acct mb_id mod_seq a c d r (ok fields) =
    let uid = be_value 0 (field_value email_field_uid fields) in
    let gone = delete_op (index_email_key acct mb_id uid) in
    let tombstone = put_op (index_expunge_key acct mb_id mod_seq uid) (be_uint64 uid) in
    Avoids-either (document_key a c d ++ r) (length (field_value email_field_uid fields) == 8)
      (gone ∷ (if mod_seq == 0 then [] else tombstone ∷ [])) []
      (
        refl,
        Avoids-either (document_key a c d ++ r) (mod_seq == 0) [] (tombstone ∷ []) tt (refl, tt),
      )
      tt

module _ (parse : Bytes → ℕ) (e : Engine) (a d : ℕ) where
  open e use {db}
  open db use {kv}

  -- The rows of the document are the same ones.
  abbrev SameRows : kv.State → kv.State → Type 0
  SameRows s s' = kv.scan s' (document_key a 2 d) ≡ kv.scan s (document_key a 2 d)

  abbrev Spares : World kv.State → World kv.State → Type 0
  Spares w w' = SameRows w.store w'.store

  abbrev IsUnmarked : World kv.State → Type 0
  IsUnmarked w = Unmarked kv a d w.store

  Spares-Unmarked : (w w' : World kv.State) → Spares w w' → IsUnmarked w → IsUnmarked w'
  Spares-Unmarked w w' h u =
      ap (λ l. has_list_token (scan_fields nothing_scanned l).flags flag_deleted) h ∙ u

  -- It is enough to keep every key under the document's prefix.
  SameRows-of_keeps :
      (s s' : kv.State)
      → ((r : Bytes) → kv.get s' (document_key a 2 d ++ r) ≡ kv.get s (document_key a 2 d ++ r))
      → SameRows s s'
  SameRows-of_keeps s s' h = scan_same kv (document_key a 2 d) s s' h

  delete_email-Spares :
      (now doc_id mb_id mod_seq : ℕ) (w : World kv.State)
      → IsUnmarked w
      → Spares w (delete_email parse e now a doc_id mb_id mod_seq true w).1
  unfolding delete_email
  delete_email-Spares now doc_id mb_id mod_seq w u = SameRows-of_keeps w.store _ λ r.
      let extra = removal_ops parse e a mb_id mod_seq (get_document_fields kv a 2 doc_id w.store) in
      elim (Bool-cases (same64 doc_id d)) [
        | inl same ↦
            removal_refused db a d now doc_id extra w.store (document_key a 2 d ++ r) same u
        | inr other ↦ removal_of_other db a d r now doc_id flag_deleted extra w.store other (
            removal_ops-Avoids parse e a mb_id mod_seq a 2 d r
              (get_document_fields kv a 2 doc_id w.store))
      ]

  abbrev SparesAt : {A : Type 0} → Result A × World kv.State → World kv.State → Type 0
  SparesAt r w = Spares w r.1

  go_on-Spares :
      {A B : Type 0} (f : A → Call (World kv.State) B) (r : Result A × World kv.State)
      (w : World kv.State)
      → IsUnmarked w
      → Spares w r.1
      → ((x : A) (v : World kv.State) → IsUnmarked v → Spares v (f x v).1)
      → Spares w (go_on f r).1
  go_on-Spares f (ok x, v) w u h g = g x v (Spares-Unmarked w v h u) ∙ h
  go_on-Spares f (err y, v) w u h g = h

  expunge_rest-Spares :
      (uid : ℕ) (rest : Call (World kv.State) (List ℕ)) (r : Result (Unit {0}) × World kv.State)
      (w : World kv.State)
      → IsUnmarked w
      → Spares w r.1
      → ((v : World kv.State) → IsUnmarked v → Spares v (rest v).1)
      → Spares w (expunge_rest parse e uid rest r).1
  expunge_rest-Spares uid rest (ok x, v) w u h g =
      go_on-Spares (λ uids. pure (uid ∷ uids)) (rest v) w u (g v (Spares-Unmarked w v h u) ∙ h)
        (λ uids v' u'. refl)
  expunge_rest-Spares uid rest (err not_marked_deleted, v) w u h g =
      g v (Spares-Unmarked w v h u) ∙ h
  expunge_rest-Spares uid rest (err not_found, v) w u h g =
      go_on-Spares (λ uids. pure (uid ∷ uids)) (rest v) w u (g v (Spares-Unmarked w v h u) ∙ h)
        (λ uids v' u'. refl)
  expunge_rest-Spares uid rest (err exists, v) w u h g = h
  expunge_rest-Spares uid rest (err corrupt, v) w u h g = h

  expunge_targets-Spares :
      (now mb_id mod_seq : ℕ) (ts : List Email) (w : World kv.State)
      → IsUnmarked w
      → Spares w (expunge_targets parse e now a mb_id mod_seq true ts w).1
  unfolding expunge_targets
  expunge_targets-Spares now mb_id mod_seq [] w u = refl
  expunge_targets-Spares now mb_id mod_seq (t ∷ ts) w u =
      expunge_rest-Spares t.uid (expunge_targets parse e now a mb_id mod_seq true ts)
        (delete_email parse e now a t.doc_id mb_id mod_seq true w) w u
        (delete_email-Spares now t.doc_id mb_id mod_seq w u)
        (expunge_targets-Spares now mb_id mod_seq ts)

  bump-Spares :
      (mb_id : ℕ) (w : World kv.State)
      → Spares w (on_store kv (bump_mailbox_mod_seq db a mb_id) w).1
  unfolding bump_mailbox_mod_seq bump_mod_seq_txn document_key field_key compare_bytes
  bump-Spares mb_id w = SameRows-of_keeps w.store _ λ r.
      with_txn-keeps db (bump_mod_seq_txn db.ops a mb_id) w.store (document_key a 2 d ++ r) (
        get-batch_apart db.ops (db.begin w.store) _ (document_key a 2 d ++ r)
          (other_collection a mb_id 0x7f d r, tt))

  expunge_selected-Spares :
      (now mb_id : ℕ) (ts : List Email) (w : World kv.State)
      → IsUnmarked w
      → Spares w (expunge_selected parse e now a mb_id true ts w).1
  expunge_selected-Spares now mb_id [] w u = refl
  expunge_selected-Spares now mb_id (t ∷ ts) w u =
      go_on-Spares (λ mod_seq. expunge_targets parse e now a mb_id mod_seq true (t ∷ ts))
        (on_store kv (bump_mailbox_mod_seq db a mb_id) w) w u (bump-Spares mb_id w)
        (λ mod_seq v u'. expunge_targets-Spares now mb_id mod_seq (t ∷ ts) v u')

  -- An IMAP expunge, of whatever UIDs and however it ends, leaves a message whose flags lack
  -- `\Deleted` as it was: the rows of its document are the same.
  pub expunge_uids_spare :
      (now : ℕ) (email name : Bytes) (uids : List ℕ) (w : World kv.State)
      → account_by_email kv email w.store ≡ ok a
      → has_list_token
          (scan_fields nothing_scanned (kv.scan w.store (document_key a 2 d))).flags
          flag_deleted
        ≡ false
      → kv.scan (expunge_uids parse e now email name uids true w).1.store (document_key a 2 d)
        ≡ kv.scan w.store (document_key a 2 d)
  unfolding expunge_uids
  expunge_uids_spare now email name uids w h u = rw h (
      go_on-Spares
        (λ mb_id. reading kv (mailbox_emails parse e a mb_id) >>= λ emails.
          expunge_selected parse e now a mb_id true (select_targets uids true emails))
        (mailbox_doc_id db a name w) w u
        (SameRows-of_keeps w.store (mailbox_doc_id db a name w).1.store
          λ r. mailbox_doc_id-Keeps db (document_key a 2 d ++ r) a name (named_apart a d name r) w)
        λ mb_id v u'.
          go_on-Spares
            (λ emails. expunge_selected parse e now a mb_id true (select_targets uids true emails))
            (mailbox_emails parse e a mb_id v.store, v) v u' refl
            λ emails v' u''.
              expunge_selected-Spares now mb_id (select_targets uids true emails) v' u'')
