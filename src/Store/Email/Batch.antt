-- ===== src/Store/Email/Batch.antt =====
-- Deliveries over any engine with transactions (`DeliverEmail` and `DeliverEmailBatch` of
-- `internal/store/store.go`).
use mailezine.Prelude.{ℕ, ◌≡◌, refl, sym, ap, ◌∙◌, List, [], ◌∷◌, ◌++◌}
use mailezine.Store.Kv.{Kv, Op, after_ops}
use mailezine.Store.Txn.{TxnKv, Result, ok, err, ◌>>=◌}
use mailezine.Store.View.{
  apply-append, View, apply, applied, seen, Carries, committed, observed, with_txn-Carries,
}
use mailezine.Store.Email.{
  Delivered, DeliverRequest, deliver_all, deliver_email, deliver_email_batch, deliver_one,
}
use mailezine.Store.Email.Delivery.Carrying.{deliver_one-Carries}
use mailezine.Store.Email.Delivery.{delivery}

-- What a batch does: every delivery starts from what the one before has left.
unfoldable pub deliveries : ℕ → List DeliverRequest → View → Result (List Delivered × List Op)
unfolding delivery
deliveries a [] v = ok ([], [])
deliveries a (req ∷ reqs) v = do
  (d, ops) ← delivery a req [] v
  (ds, more) ← deliveries a reqs (apply ops v)
  ok (d ∷ ds, ops ++ more)

abbrev more_ops :
    List Op → Delivered → Result (List Delivered × List Op) → Result (List Delivered × List Op)
more_ops ops d r = do (ds, more) ← r; ok (d ∷ ds, ops ++ more)

applied-more_ops :
    (v : View) (ops : List Op) (d : Delivered) (r : Result (List Delivered × List Op))
    → (applied (apply ops v) r >>= λ (ds, w). ok (d ∷ ds, w)) ≡ applied v (more_ops ops d r)
applied-more_ops v ops d (ok (ds, more)) = ap (λ w. ok (d ∷ ds, w)) (apply-append ops more v)
applied-more_ops v ops d (err e) = refl

module _ (t : Kv) where
  abbrev consed : Delivered → Result (List Delivered × t.State) → Result (List Delivered × t.State)
  consed d r = do (ds, s) ← r; ok (d ∷ ds, s)

  seen-consed :
      (d : Delivered) (r : Result (List Delivered × t.State))
      → seen t (consed d r) ≡ (seen t r >>= λ (ds, w). ok (d ∷ ds, w))
  seen-consed d (ok _) = refl
  seen-consed d (err _) = refl

  abbrev go_on :
      ℕ → List DeliverRequest → Result (Delivered × View) → Result (List Delivered × View)
  go_on a reqs r = do (d, w) ← r; (ds, w') ← applied w (deliveries a reqs w); ok (d ∷ ds, w')

  seen_step :
      (a : ℕ) (reqs : List DeliverRequest) (r : Result (Delivered × t.State))
      → Carries t (deliver_all t a reqs) (deliveries a reqs)
      → seen t (r >>= λ (d, s). consed d (deliver_all t a reqs s)) ≡ go_on a reqs (seen t r)
  seen_step a reqs (ok (d, s)) ih =
      seen-consed d (deliver_all t a reqs s) ∙ ap (λ r. r >>= λ (ds, w). ok (d ∷ ds, w)) (ih s)
  seen_step a reqs (err e) ih = refl

  applied_step :
      (a : ℕ) (reqs : List DeliverRequest) (v : View) (p : Result (Delivered × List Op))
      → go_on a reqs (applied v p)
        ≡ applied v (p >>= λ (d, ops). more_ops ops d (deliveries a reqs (apply ops v)))
  applied_step a reqs v (ok (d, ops)) = applied-more_ops v ops d (deliveries a reqs (apply ops v))
  applied_step a reqs v (err e) = refl

  pub deliver_all-Carries :
      (a : ℕ) (reqs : List DeliverRequest) → Carries t (deliver_all t a reqs) (deliveries a reqs)
  unfolding deliver_all deliveries after_ops
  deliver_all-Carries a [] s = refl
  deliver_all-Carries a (req ∷ reqs) s =
      seen_step a reqs (deliver_one t a req [] s) (deliver_all-Carries a reqs)
      ∙ ap (go_on a reqs) (deliver_one-Carries t a req [] s)
      ∙ applied_step a reqs (t.get s) (delivery a req [] (t.get s))

abbrev pub and_then {ℓ} :
    {S : Type ℓ}
    → Result Delivered × S
    → (S → Result (List Delivered) × S)
    → Result (List Delivered) × S
and_then (ok d, s) f = let (r, s') = f s in (r >>= λ ds. ok (d ∷ ds), s')
and_then (err e, s) f = (err e, s)

-- Back to the start on an error.
abbrev pub or_back : View → Result (List Delivered) × View → Result (List Delivered) × View
or_back v (ok ds, w) = (ok ds, w)
or_back v (err e, w) = (err e, v)

unfoldable each_view : ℕ → List DeliverRequest → View → Result (List Delivered) × View
each_view a [] v = (ok [], v)
each_view a (req ∷ reqs) v = and_then (committed v (delivery a req [] v)) (each_view a reqs)

or_back_step :
    (v : View) (d : Delivered) (ops : List Op) (r : Result (List Delivered × List Op))
    (x : Result (List Delivered) × View)
    → or_back (apply ops v) x ≡ committed (apply ops v) r
    → or_back v (and_then (ok d, apply ops v) (λ _. x)) ≡ committed v (more_ops ops d r)
or_back_step v d ops (ok (ds, more)) (ok ds', w) h =
    ap (λ (r, w'). (r >>= λ es. ok (d ∷ es), w')) h
    ∙ ap (λ w'. (ok (d ∷ ds), w')) (apply-append ops more v)
or_back_step v d ops (ok (ds, more)) (err e', w) h = cc
or_back_step v d ops (err e) (ok ds', w) h = cc
or_back_step v d ops (err e) (err e', w) h = ap (λ (r, _). (r >>= λ es. ok (d ∷ es), v)) h

or_back-each_view :
    (a : ℕ) (reqs : List DeliverRequest) (v : View)
    → or_back v (each_view a reqs v) ≡ committed v (deliveries a reqs v)
unfolding each_view deliveries after_ops
or_back-each_view a [] v = refl
or_back-each_view a (req ∷ reqs) v =
    elim (delivery a req [] v)
      as (λ p.
        or_back v (and_then (committed v p) (each_view a reqs))
        ≡ committed v (p >>= λ (d, ops). more_ops ops d (deliveries a reqs (apply ops v)))) [
          | ok (d, ops) ↦ or_back_step v d ops _ _ (or_back-each_view a reqs (apply ops v))
          | err e ↦ refl
        ]

module _ (db : TxnKv) where
  open db use {kv, ops}

  -- A delivery has the outcome of its plan: on success every key holds what the plan's operations,
  -- computed from the keys before, make of it, and on an error no key has changed.
  pub deliver_email-delivery :
      (a : ℕ) (req : DeliverRequest) (extra : List Op) (s : kv.State)
      → observed db (deliver_email db a req extra s)
        ≡ committed (kv.get s) (delivery a req extra (kv.get s))
  unfolding deliver_email
  deliver_email-delivery a req extra s =
      with_txn-Carries db _ (delivery a req extra) (deliver_one-Carries ops a req extra) s

  deliver_email_batch-deliveries :
      (a : ℕ) (reqs : List DeliverRequest) (s : kv.State)
      → observed db (deliver_email_batch db a reqs s)
        ≡ committed (kv.get s) (deliveries a reqs (kv.get s))
  unfolding deliver_email_batch
  deliver_email_batch-deliveries a reqs s =
      with_txn-Carries db _ (deliveries a reqs) (deliver_all-Carries ops a reqs) s

  -- One call of `DeliverEmail` after the other, up to the first that fails.
  unfoldable pub deliver_each :
      ℕ → List DeliverRequest → kv.State → Result (List Delivered) × kv.State
  unfolding deliver_email
  deliver_each a [] s = (ok [], s)
  deliver_each a (req ∷ reqs) s =
      and_then (deliver_email db a req [] s) (λ s'. deliver_each a reqs s')

  observed-and_then :
      (x : Result Delivered × kv.State) (f : kv.State → Result (List Delivered) × kv.State)
      (g : View → Result (List Delivered) × View)
      → ((s : kv.State) → observed db (f s) ≡ g (kv.get s))
      → observed db (and_then x f) ≡ and_then (observed db x) g
  observed-and_then (ok d, s) f g h = ap (λ (r, w). (r >>= λ ds. ok (d ∷ ds), w)) (h s)
  observed-and_then (err e, s) f g h = refl

  deliver_each-each_view :
      (a : ℕ) (reqs : List DeliverRequest) (s : kv.State)
      → observed db (deliver_each a reqs s) ≡ each_view a reqs (kv.get s)
  unfolding deliver_each each_view
  deliver_each-each_view a [] s = refl
  deliver_each-each_view a (req ∷ reqs) s =
      observed-and_then (deliver_email db a req [] s) _ (each_view a reqs)
        (deliver_each-each_view a reqs)
      ∙ ap (λ x. and_then x (each_view a reqs)) (deliver_email-delivery a req [] s)

  -- A batch of deliveries returns what the same deliveries one by one return, the first error
  -- included. If they succeed every key holds the same afterwards, and if one fails the batch
  -- leaves every key as it was.
  pub deliver_email_batch-deliver_each :
      (a : ℕ) (reqs : List DeliverRequest) (s : kv.State)
      → observed db (deliver_email_batch db a reqs s)
        ≡ or_back (kv.get s) (observed db (deliver_each a reqs s))
  deliver_email_batch-deliver_each a reqs s =
      deliver_email_batch-deliveries a reqs s
      ∙ sym (or_back-each_view a reqs (kv.get s))
      ∙ ap (or_back (kv.get s)) (sym (deliver_each-each_view a reqs s))
