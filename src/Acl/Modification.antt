-- ===== src/Acl/Modification.antt =====
-- Which rights `ApplyModification` of `internal/acl/acl.go` leaves.
use mailezine.Prelude.{
  ◌++◌, not, ◌&&◌, ap, ◌∙◌, sym, ℕ, ◌≡◌, refl, [], ◌∷◌, some, ◌==◌, ◌||◌, arith, Option-cases, inl,
  inr, ap,
}
use mailezine.Bytes.{Bytes}
use mailezine.Acl.{replace_all, remove_all, apply_modification, has, normalize}
use mailezine.Acl.Rights.{has-normalize}

has-append : (a b : Bytes) (r : ℕ) → has (a ++ b) r ≡ (has a r || has b r)
unfolding has
has-append [] b r = refl
has-append (x ∷ xs) b r = ground (arith, has-append xs b r)

has-replace_all : (cur : Bytes) (x r : ℕ) → has (replace_all cur x) r ≡ (has cur r && not (x == r))
unfolding has replace_all
has-replace_all [] x r = refl
has-replace_all (c ∷ cs) x r = ground (arith, has-replace_all cs x r)

has-remove_all :
    (cur gone : Bytes) (r : ℕ) → has (remove_all cur gone) r ≡ (has cur r && not (has gone r))
unfolding has remove_all
has-remove_all cur [] r = ground arith
has-remove_all cur (x ∷ xs) r =
    ground (arith, has-remove_all (replace_all cur x) xs r, has-replace_all cur x r)

-- `+rights` that succeeds grants exactly what was granted or is added.
pub apply_modification-add :
    (current rights out : Bytes)
    → apply_modification current (b'+' ∷ rights) ≡ some out
    → (r : ℕ) → has out r ≡ (has current r || has rights r)
unfolding apply_modification
apply_modification-add current rights out h r = elim (Option-cases (normalize rights)) [
  | inl bad ↦ absurd (cc (rw (bad) at h))
  | inr (add, a) ↦ elim (Option-cases (normalize current)) [
    | inl bad ↦ absurd (cc (rw (a, bad) at h))
    | inr (cur, c) ↦ ground (
      arith,
      has-normalize (cur ++ add) out (rw (a, c) at h) r,
      has-append cur add r,
      has-normalize rights add a r,
      has-normalize current cur c r,
    )
  ]
]

-- `-rights` that succeeds grants exactly what was granted and is not taken away.
pub apply_modification-remove :
    (current rights out : Bytes)
    → apply_modification current (b'-' ∷ rights) ≡ some out
    → (r : ℕ) → has out r ≡ (has current r && not (has rights r))
unfolding apply_modification
apply_modification-remove current rights out h r = elim (Option-cases (normalize rights)) [
  | inl bad ↦ absurd (cc (rw (bad) at h))
  | inr (gone, a) ↦ elim (Option-cases (normalize current)) [
    | inl bad ↦ absurd (cc (rw (a, bad) at h))
    | inr (cur, c) ↦
        let same : remove_all cur gone ≡ out = ground (arith, rw (a, c) at h) in
        sym (ap (λ l. has l r) same)
        ∙ has-remove_all cur gone r
        ∙ ground (arith, has-normalize rights gone a r, has-normalize current cur c r)
  ]
]
