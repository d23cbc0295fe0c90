-- ===== src/MailStore/Message/Listed.antt =====
-- Which documents the listing of a mailbox reads (`internal/mailstore/kv_mailbox.go`,
-- `mailboxEmails`).
use mailezine.Bytes.{Bytes}
use mailezine.Store.View.{value_or}
use mailezine.Prelude.{
  All-map, subst, ap, ℕ, ◌≡◌, refl, List, [], ◌∷◌, some, true, false, All, arith, ==_refl, ◌==◌,
  ◌||◌, Option-cases, Bool-cases, inl, inr, Bool,
}
use mailezine.Prelude.NatMap
use mailezine.Store.Key.{index_email_prefix}
use mailezine.Store.Documents.{Fields}
use mailezine.Store.Txn.{Result, ok, err}
use mailezine.MailStore.Calls.{Engine}
use mailezine.MailStore.Message.{
  Email, Span, email_from_fields, fetch_spans, fetched, in_order, in_uids, mailbox_emails,
  note_emails, ordered, row_doc_ids, sort_ids, spans,
}

-- Each message stands under the number of its document.
abbrev IsKeyed : List (ℕ × Email) → Type 0
IsKeyed by_id = (i : ℕ) (m : Email) → NatMap.get i by_id ≡ some m → m.doc_id ≡ i

abbrev AllKeyed : Result (List (ℕ × Email)) → Type 0
AllKeyed (ok by_id) = IsKeyed by_id
AllKeyed (err e) = Unit

module _ (parse : Bytes → ℕ) where
  put-IsKeyed :
      (id : ℕ) (fields : Fields) (by_id : List (ℕ × Email))
      → IsKeyed by_id
      → IsKeyed (NatMap.put id (email_from_fields parse id fields) by_id)
  unfolding email_from_fields
  put-IsKeyed id fields by_id h i m e =
      ground (arith, NatMap.get-put id i (email_from_fields parse id fields) by_id, h i m, e)

  note_emails-IsKeyed :
      (want : List ℕ) (docs : List (ℕ × Fields)) (by_id : List (ℕ × Email))
      → IsKeyed by_id
      → IsKeyed (note_emails parse want docs by_id)
  unfolding note_emails
  note_emails-IsKeyed want [] by_id h = h
  note_emails-IsKeyed want ((id, fields) ∷ docs) by_id h =
      note_emails-IsKeyed want docs _ (elim (Bool-cases (in_uids want id)) [
        | inl wanted ↦ rw wanted (put-IsKeyed id fields by_id h)
        | inr other ↦ rw other h
      ])

  -- What is read in order has the document numbers asked for.
  in_order-listed :
      (by_id : List (ℕ × Email)) (ids : List ℕ)
      → IsKeyed by_id
      → All (λ m. in_uids ids m.doc_id ≡ true) (in_order parse by_id ids)
  unfolding in_order
  in_order-listed by_id [] h = tt
  in_order-listed by_id (id ∷ ids) h =
      let rest =
        All-map _ _ (in_order parse by_id ids) (λ m g. or_right (id == m.doc_id) _ g)
          (in_order-listed by_id ids h) in
      elim (Option-cases (NatMap.get id by_id)) [
        | inl missing ↦ rw (missing, All, in_order) rest
        | inr (m, e) ↦ rw (e, All, in_order) (rw (h id m e) (or_left id ids), rest)
      ]
    where
      or_right : (b c : Bool) → c ≡ true → (b || c) ≡ true
      or_right true c g = refl
      or_right false c g = g

      or_left : (i : ℕ) (is : List ℕ) → in_uids (i ∷ is) i ≡ true
      or_left i is = rw (==_refl i) refl

  module _ (e : Engine) where
    open e use {db}
    open db use {kv}

    fetched-AllKeyed :
        (want : List ℕ) (r : Result (List (ℕ × Email)))
        (docs : List (ℕ × Fields) × Result (Unit {0}))
        → AllKeyed r
        → AllKeyed (fetched parse e r want docs)
    fetched-AllKeyed want (ok by_id) (docs, ok _) h = note_emails-IsKeyed want docs by_id h
    fetched-AllKeyed want (ok by_id) (docs, err x) h = tt
    fetched-AllKeyed want (err x) docs h = tt

    fetch_spans-AllKeyed :
        (acct : ℕ) (ps : List Span) (s : kv.State) (r : Result (List (ℕ × Email)))
        → AllKeyed r
        → AllKeyed (fetch_spans parse e acct ps s r)
    unfolding fetch_spans
    fetch_spans-AllKeyed acct [] s r h = h
    fetch_spans-AllKeyed acct (p ∷ ps) s r h =
        fetch_spans-AllKeyed acct ps s _ (fetched-AllKeyed p.want r _ h)

    -- Every message that the listing of a mailbox gives is a document of the mailbox's index rows.
    pub mailbox_emails-listed :
        (acct mb_id : ℕ) (s : kv.State) (emails : List Email)
        → mailbox_emails parse e acct mb_id s ≡ ok emails
        → All
            (λ m. in_uids (row_doc_ids (kv.scan s (index_email_prefix acct mb_id))) m.doc_id ≡ true)
            emails
    unfolding mailbox_emails NatMap.get
    mailbox_emails-listed acct mb_id s emails h =
        let ids = row_doc_ids (kv.scan s (index_email_prefix acct mb_id)) in
        read ids (fetch_spans parse e acct (spans (sort_ids ids)) s (ok []))
          (fetch_spans-AllKeyed acct (spans (sort_ids ids)) s (ok []) empty_keyed) h
      where
        empty_keyed : IsKeyed []
        empty_keyed i m g = absurd (cc g)

        read :
            (ids : List ℕ) (r : Result (List (ℕ × Email)))
            → AllKeyed r
            → ordered parse e ids r ≡ ok emails
            → All (λ m. in_uids ids m.doc_id ≡ true) emails
        read ids (ok by_id) k g =
            subst (λ l. All (λ m. in_uids ids m.doc_id ≡ true) l) (ap (value_or []) g)
              (in_order-listed by_id ids k)
        read ids (err x) k g = absurd (cc g)
