-- ===== src/Store/View.antt =====
-- What a transaction of `internal/store` does, told as a plan: it reads the keys, and either fails or
-- has a value and a list of operations. A closure that carries out a plan makes a call with
-- the plan's outcome on every engine with transactions.
use mailezine.Prelude.{
  subst, none, if◌then◌else◌, some, ◌≡◌, refl, sym, ap, ◌∙◌, fun_ext, false, List, [], ◌∷◌, ◌++◌,
  Option, All,
}
use mailezine.Bytes.Assoc
use mailezine.Bytes.{has_prefix, compare_bytes, compare_bytes_refl, Bytes, bytes_eq}
use mailezine.Store.Kv.{delete_op, put_op, Kv, Op, after_ops}
use mailezine.Store.Txn.{settle, TxnKv, Result, ok, err, with_txn, ◌>>=◌}

-- What every key holds.
abbrev pub View : Type 0
View = Bytes → Option Bytes

abbrev pub apply : List Op → View → View
apply ops v k = after_ops ops k (v k)

pub after_ops-append :
    (a b : List Op) (k : Bytes) (held : Option Bytes)
    → after_ops (a ++ b) k held ≡ after_ops b k (after_ops a k held)
unfolding after_ops
after_ops-append [] b k held = refl
after_ops-append (op ∷ a) b k held = after_ops-append a b k _

pub apply-append : (a b : List Op) (v : View) → apply b (apply a v) ≡ apply (a ++ b) v
apply-append a b v = fun_ext λ k. sym (after_ops-append a b k (v k))

-- No operation of the list is on the key.
abbrev pub Avoids : Bytes → List Op → Type 0
Avoids k = All (λ op. bytes_eq op.key k ≡ false)

pub after_ops_apart :
    (ops : List Op) (k : Bytes) (held : Option Bytes) → Avoids k ops → after_ops ops k held ≡ held
unfolding after_ops
after_ops_apart [] k held a = refl
after_ops_apart (op ∷ ops) k held a = rw a.0 (after_ops_apart ops k held a.1)

-- The last write of a key decides.
pub after_ops_last :
    (pre post : List Op) (k x : Bytes) (held : Option Bytes)
    → Avoids k post
    → after_ops (pre ++ put_op k x ∷ post) k held ≡ some x
unfolding after_ops compare_bytes
after_ops_last pre post k x held h =
    after_ops-append pre (put_op k x ∷ post) k held
    ∙ rw (compare_bytes_refl k) (after_ops_apart post k (some x) h)

module _ (t : Kv) where
  pub view-batch : (s : t.State) (ops : List Op) → t.get (t.batch s ops) ≡ apply ops (t.get s)
  view-batch s ops = fun_ext λ k. t.get-batch s ops k

  pub get-batch_apart :
      (s : t.State) (ops : List Op) (k : Bytes) → Avoids k ops → t.get (t.batch s ops) k ≡ t.get s k
  get-batch_apart s ops k a = t.get-batch s ops k ∙ after_ops_apart ops k _ a

  pub get-batch_put : (s : t.State) (k x : Bytes) → t.get (t.batch s (put_op k x ∷ [])) k ≡ some x
  unfolding after_ops compare_bytes
  get-batch_put s k x = t.get-batch s _ k ∙ rw (compare_bytes_refl k) refl

  pub get-batch_delete : (s : t.State) (k : Bytes) → t.get (t.batch s (delete_op k ∷ [])) k ≡ none
  unfolding after_ops compare_bytes
  get-batch_delete s k = t.get-batch s _ k ∙ rw (compare_bytes_refl k) refl

  pub get-batch_last :
      (s : t.State) (pre post : List Op) (k x : Bytes)
      → Avoids k post
      → t.get (t.batch s (pre ++ put_op k x ∷ post)) k ≡ some x
  get-batch_last s pre post k x h = t.get-batch s _ k ∙ after_ops_last pre post k x (t.get s k) h

  -- One batch more on a state that has come from `v` by operations.
  pub view-batch_after :
      (s : t.State) (a b : List Op) (v : View)
      → t.get s ≡ apply a v
      → t.get (t.batch s b) ≡ apply (a ++ b) v
  view-batch_after s a b v h =
      view-batch s b ∙ ap (apply b) h ∙ fun_ext λ k. sym (after_ops-append a b k (v k))

  abbrev pub seen {ℓ} : {A : Type ℓ} → Result (A × t.State) → Result (A × View)
  seen (ok (a, s)) = ok (a, t.get s)
  seen (err e) = err e

abbrev pub applied {ℓ} : {A : Type ℓ} → View → Result (A × List Op) → Result (A × View)
applied v (ok (a, ops)) = ok (a, apply ops v)
applied v (err e) = err e

-- The closure carries out the plan.
abbrev pub Carries {ℓ} :
    {A : Type ℓ} (t : Kv)
    → (t.State → Result (A × t.State))
    → (View → Result (A × List Op))
    → Type ℓ
Carries t f p = (s : t.State) → seen t (f s) ≡ applied (t.get s) (p (t.get s))

module _ {ℓ κ} {A : Type ℓ} {B : Type κ} (t : Kv) where
  -- A step that reads.
  pub seen-bind :
      (v : View) (m n : Result B) (f : B → Result (A × t.State)) (g : B → Result (A × List Op))
      → m ≡ n
      → ((x : B) → seen t (f x) ≡ applied v (g x))
      → seen t (m >>= f) ≡ applied v (n >>= g)
  seen-bind v m (ok x) f g e h = rw e (h x)
  seen-bind v m (err _) f g e h = rw e refl

  -- A step that reads and then stages.
  pub seen-bind_state :
      (v : View) (m n : Result B) (h : B → t.State) (f : t.State → Result (A × t.State))
      (g : B → Result (A × List Op))
      → m ≡ n
      → ((x : B) → seen t (f (h x)) ≡ applied v (g x))
      → seen t ((m >>= λ x. ok (h x)) >>= f) ≡ applied v (n >>= g)
  seen-bind_state v (ok x) n h f g e k = rw (sym e) (k x)
  seen-bind_state v (err _) n h f g e k = rw (sym e) refl

module _ (t : Kv) where
  -- A read of a key that no operation so far is on.
  pub read_past :
      (s s' : t.State) (ops : List Op) (k : Bytes)
      → t.get s' ≡ apply ops (t.get s)
      → Avoids k ops
      → t.get s' k ≡ t.get s k
  read_past s s' ops k h a = ap (λ w. w k) h ∙ after_ops_apart ops k _ a

  pub seen-ok {ℓ} :
      {A : Type ℓ} (x : A) (v : View) (s : t.State) (ops : List Op)
      → t.get s ≡ apply ops v
      → seen t (ok (x, s)) ≡ applied v (ok (x, ops))
  seen-ok x v s ops h = ap (λ w. ok (x, w)) h

abbrev pub committed {ℓ} : {A : Type ℓ} → View → Result (A × List Op) → Result A × View
committed v (ok (a, ops)) = (ok a, apply ops v)
committed v (err e) = (err e, v)

module _ (db : TxnKv) where
  open db use {kv, ops, begin, commit}

  abbrev pub observed {ℓ} : {A : Type ℓ} → Result A × kv.State → Result A × View
  observed (r, s) = (r, kv.get s)

  abbrev seen_commit {ℓ} : {A : Type ℓ} → View → Result (A × View) → Result A × View
  seen_commit v (ok (a, w)) = (ok a, w)
  seen_commit v (err e) = (err e, v)

  observed-settle {ℓ} :
      {A : Type ℓ} (s : kv.State) (r : Result (A × ops.State))
      → observed (settle db s r) ≡ seen_commit (kv.get s) (seen ops r)
  observed-settle s (ok (a, t)) = ap (λ w. (ok a, w)) (fun_ext λ k. db.get-commit t k)
  observed-settle s (err e) = refl

  seen_commit-applied {ℓ} :
      {A : Type ℓ} (v : View) (r : Result (A × List Op))
      → seen_commit v (applied v r) ≡ committed v r
  seen_commit-applied v (ok _) = refl
  seen_commit-applied v (err _) = refl

  -- A transaction whose closure carries out a plan has the plan's outcome: its operations are
  -- applied if it succeeds, and nothing changes if it fails.
  pub with_txn-Carries {ℓ} :
      {A : Type ℓ} (f : ops.State → Result (A × ops.State)) (p : View → Result (A × List Op))
      → Carries ops f p
      → (s : kv.State) → observed (with_txn db f s) ≡ committed (kv.get s) (p (kv.get s))
  unfolding with_txn
  with_txn-Carries f p c s =
      let same : ops.get (begin s) ≡ kv.get s = fun_ext λ k. db.get-begin s k in
      observed-settle s (f (begin s))
      ∙ ap (seen_commit (kv.get s)) (c (begin s) ∙ ap (λ v. applied v (p v)) same)
      ∙ seen_commit-applied (kv.get s) (p (kv.get s))

-- What holds of a result if it is one.
abbrev pub OnOk {ℓ κ} : {A : Type ℓ} → (A → Type κ) → Result A → Type κ
OnOk P (ok x) = P x
OnOk P (err e) = Unit

pub OnOk-bind {ℓ κ μ} :
    {A : Type ℓ} {B : Type κ} (P : B → Type μ) (m : Result A) (f : A → Result B)
    → ((x : A) → m ≡ ok x → OnOk P (f x))
    → OnOk P (m >>= f)
OnOk-bind P (ok x) f h = h x refl
OnOk-bind P (err e) f h = tt

pub OnOk-map {ℓ κ μ} :
    {A : Type ℓ} (Q : A → Type κ) (P : A → Type μ) (m : Result A)
    → OnOk Q m
    → ((x : A) → Q x → P x)
    → OnOk P m
OnOk-map Q P (ok x) q h = h x q
OnOk-map Q P (err e) q h = tt

-- As above, with what is known of the first result.
pub OnOk-then {ℓ κ μ ν} :
    {A : Type ℓ} {B : Type κ} (Q : A → Type ν) (P : B → Type μ) (m : Result A) (f : A → Result B)
    → OnOk Q m
    → ((x : A) → Q x → OnOk P (f x))
    → OnOk P (m >>= f)
OnOk-then Q P (ok x) f q h = h x q
OnOk-then Q P (err e) f q h = tt

abbrev pub value_or {ℓ} : {A : Type ℓ} → A → Result A → A
value_or e (ok x) = x
value_or e (err _) = e

module _ (db : TxnKv) where
  open db use {kv, ops, begin, commit}

  -- What a closure makes sure of on success holds of the engine after the commit.
  pub with_txn-OnOk {ℓ κ μ} :
      {A : Type ℓ} (f : ops.State → Result (A × ops.State)) (P : ops.State → Type κ)
      (Q : kv.State → Type μ) (s : kv.State) (x : A)
      → OnOk (λ (_, t). P t) (f (begin s))
      → ((t : ops.State) → P t → Q (commit t))
      → (with_txn db f s).0 ≡ ok x
      → Q (with_txn db f s).1
  unfolding with_txn
  with_txn-OnOk f P Q s x p q h =
      elim (f (begin s))
          as (λ r. OnOk (λ (_, t). P t) r → (settle db s r).0 ≡ ok x → Q (settle db s r).1) [
            | ok (y, t) ↦ λ held same. q t held
            | err e ↦ λ held same. cc same
          ]
        p h

  pub with_txn-OnOk_value {ℓ κ μ} :
      {A : Type ℓ} (f : ops.State → Result (A × ops.State)) (P : A × ops.State → Type κ)
      (Q : kv.State → Type μ) (s : kv.State) (x : A)
      → OnOk P (f (begin s))
      → ((t : ops.State) → P (x, t) → Q (commit t))
      → (with_txn db f s).0 ≡ ok x
      → Q (with_txn db f s).1
  unfolding with_txn
  with_txn-OnOk_value f P Q s x p q h =
      elim (f (begin s)) as (λ r. OnOk P r → (settle db s r).0 ≡ ok x → Q (settle db s r).1) [
        | ok (y, t) ↦ λ held same. q t (subst (λ z. P (z, t)) (ap (value_or y) same) held)
        | err e ↦ λ held same. cc same
      ]
        p h

  -- A scan at the start of a transaction is the engine's.
  pub scan-begin : (s : kv.State) (p : Bytes) → ops.scan (begin s) p ≡ kv.scan s p
  scan-begin s p = Assoc.eq_of_get _ _ (ops.scan-IsSorted (begin s) p) (kv.scan-IsSorted s p) λ k.
      ops.get-scan (begin s) p k
      ∙ ap (λ o. if has_prefix p k then o else none) (db.get-begin s k)
      ∙ sym (kv.get-scan s p k)
