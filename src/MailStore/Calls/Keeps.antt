-- ===== src/MailStore/Calls/Keeps.antt =====
-- Steps that leave a key alone, whether they fail or not (`internal/mailstore/kv.go`).
use mailezine.Bytes.Assoc
use mailezine.Bytes.{has_prefix, prefix_rest}
use mailezine.Prelude.{
  All, Bool-cases, inl, inr, subst, sym, drop, length, ◌++◌, Bool, true, if◌then◌else◌, ◌≡◌, refl,
  ◌∙◌, false, List, [], ◌∷◌, ap,
}
use mailezine.Bytes.{Bytes, bytes_eq}
use mailezine.Store.Kv.{Kv, put_op, delete_op}
use mailezine.Store.Txn.{TxnKv, Result, ok, err, with_txn, settle}
use mailezine.Store.View.{OnOk, get-batch_apart}
use mailezine.MailStore.Calls.{Call, World, delete_raw, for_each, go_on, put_raw, ◌>>=◌}

-- A transaction whose closure keeps the key.
pub with_txn-keeps :
    (db : TxnKv) {A : Type 0} (f : db.ops.State → Result (A × db.ops.State)) (s : db.kv.State)
    (k : Bytes)
    → OnOk (λ (_, t). db.ops.get t k ≡ db.ops.get (db.begin s) k) (f (db.begin s))
    → db.kv.get (with_txn db f s).1 k ≡ db.kv.get s k
unfolding with_txn
with_txn-keeps db f s k h =
    elim (f (db.begin s))
        as (λ r.
          OnOk (λ (_, t). db.ops.get t k ≡ db.ops.get (db.begin s) k) r
          → db.kv.get (settle db s r).1 k ≡ db.kv.get s k) [
            | ok (x, t) ↦ λ held. db.get-commit t k ∙ held ∙ db.get-begin s k
            | err e ↦ λ held. refl
          ]
      h

module _ (kv : Kv) (k : Bytes) where
  -- After the step the key holds what it held.
  abbrev pub Keeps : {A : Type 0} → Call (World kv.State) A → Type 0
  Keeps m = (w : World kv.State) → kv.get (m w).1.store k ≡ kv.get w.store k

  -- So from one state on.
  abbrev pub KeepsAt : {A : Type 0} → Result A × World kv.State → World kv.State → Type 0
  KeepsAt r w = kv.get r.1.store k ≡ kv.get w.store k

  pub go_on-Keeps :
      {A B : Type 0} (f : A → Call (World kv.State) B) (r : Result A × World kv.State)
      (w : World kv.State)
      → KeepsAt r w
      → ((x : A) → Keeps (f x))
      → KeepsAt (go_on f r) w
  go_on-Keeps f (ok x, w') w h g = g x w' ∙ h
  go_on-Keeps f (err e, w') w h g = h

  -- The next step is asked only for what the first one leaves.
  pub go_on-KeepsAt :
      {A B : Type 0} (f : A → Call (World kv.State) B) (r : Result A × World kv.State)
      (w : World kv.State)
      → KeepsAt r w
      → ((x : A) → r.0 ≡ ok x → KeepsAt (f x r.1) r.1)
      → KeepsAt (go_on f r) w
  go_on-KeepsAt f (ok x, v) w h g = g x refl ∙ h
  go_on-KeepsAt f (err e, v) w h g = h

  pub bind-Keeps :
      {A B : Type 0} (m : Call (World kv.State) A) (f : A → Call (World kv.State) B)
      → Keeps m
      → ((x : A) → Keeps (f x))
      → Keeps (m >>= f)
  bind-Keeps m f h g w = go_on-Keeps f (m w) w (h w) g

  pub put_raw-Keeps : (j v : Bytes) → bytes_eq j k ≡ false → Keeps (put_raw kv j v)
  unfolding put_raw
  put_raw-Keeps j v h w = get-batch_apart kv w.store (put_op j v ∷ []) k (h, tt)

  pub delete_raw-Keeps : (j : Bytes) → bytes_eq j k ≡ false → Keeps (delete_raw kv j)
  unfolding delete_raw
  delete_raw-Keeps j h w = get-batch_apart kv w.store (delete_op j ∷ []) k (h, tt)

  pub for_each-Keeps :
      {A : Type 0} (f : A → Call (World kv.State) (Unit {0})) (xs : List A)
      → ((x : A) → Keeps (f x))
      → Keeps (for_each f xs)
  unfolding for_each
  for_each-Keeps f [] h w = refl
  for_each-Keeps f (x ∷ xs) h w =
      go_on-Keeps (λ _. for_each f xs) (f x w) w (h x w) (λ _. for_each-Keeps f xs h)

  pub for_each-Keeps_each :
      {A : Type 0} (f : A → Call (World kv.State) (Unit {0})) (xs : List A)
      → All (λ x. Keeps (f x)) xs
      → Keeps (for_each f xs)
  unfolding for_each
  for_each-Keeps_each f [] h w = refl
  for_each-Keeps_each f (x ∷ xs) h w =
      go_on-Keeps (λ _. for_each f xs) (f x w) w (h.0 w) (λ _. for_each-Keeps_each f xs h.1)

  pub either-keeps :
      {A : Type 0} (b : Bool) (r r' : Result A × World kv.State) (w : World kv.State)
      → KeepsAt r w
      → KeepsAt r' w
      → KeepsAt (if b then r else r') w
  either-keeps true r r' w h h' = h
  either-keeps false r r' w h h' = h'

-- Two states agree in a scan if they do in every key under its prefix.
pub scan_same :
    (kv : Kv) (p : Bytes) (s s' : kv.State)
    → ((r : Bytes) → kv.get s' (p ++ r) ≡ kv.get s (p ++ r))
    → kv.scan s' p ≡ kv.scan s p
scan_same kv p s s' h = Assoc.eq_of_get _ _ (kv.scan-IsSorted s' p) (kv.scan-IsSorted s p) λ k.
    kv.get-scan s' p k
    ∙ (elim (Bool-cases (has_prefix p k)) [
      | inl under ↦ rw under (
          subst (λ j. kv.get s' j ≡ kv.get s j) (sym (prefix_rest p k under))
            (h (drop (length p) k)))
      | inr apart ↦ rw apart refl
    ])
    ∙ sym (kv.get-scan s p k)

-- What the first step makes sure of and the next one keeps holds if both go through.
pub go_on-OnOk :
    (kv : Kv) {A B : Type 0} (P : kv.State → Type 0) (f : A → Call (World kv.State) B)
    (r : Result A × World kv.State) (y : B)
    → ((x : A) → r.0 ≡ ok x → P r.1.store)
    → ((x : A) (v : World kv.State) → P v.store → P (f x v).1.store)
    → (go_on f r).0 ≡ ok y
    → P (go_on f r).1.store
go_on-OnOk kv P f (ok x, v) y h g done = g x v (h x refl)
go_on-OnOk kv P f (err e, v) y h g done = cc done

pub go_on-known :
    (kv : Kv) {A B : Type 0} (f : A → Call (World kv.State) B) (r : Result A × World kv.State)
    (x : A)
    → r.0 ≡ ok x
    → go_on f r ≡ f x r.1
go_on-known kv f (ok y, v) x h = ap (λ z. go_on f (z, v)) h
go_on-known kv f (err e, v) x h = ap (λ z. go_on f (z, v)) h

-- What the last step makes sure of.
pub go_on-last :
    (kv : Kv) {A B : Type 0} (P : kv.State → Type 0) (f : A → Call (World kv.State) B)
    (r : Result A × World kv.State) (y : B)
    → ((x : A) (v : World kv.State) → (f x v).0 ≡ ok y → P (f x v).1.store)
    → (go_on f r).0 ≡ ok y
    → P (go_on f r).1.store
go_on-last kv P f (ok x, v) y g done = g x v done
go_on-last kv P f (err e, v) y g done = cc done
