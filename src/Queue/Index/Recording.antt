-- ===== src/Queue/Index/Recording.antt =====
-- `commitOutcome` of `internal/queue/queue.go` keeps the due index exact and makes no claim.
use mailezine.Prelude.{
  ==_refl, ℕ, ◌≡◌, refl, some, true, arith, ◌≤◌, Option-cases, Bool-cases, inl, inr, false,
}
use mailezine.Queue.Message.{Message, Config, unix, is_terminal, due_pos, is_active}
use mailezine.Queue.Spool.{Spool, row, commit, ok}
use mailezine.Queue.Outcome.{holds_claim, commit_outcome}
use mailezine.Queue.Spool.Reads.{row-apply}
use mailezine.Queue.Index.{
  IsIndexed, expects, move-Replaces, close-Replaces, Keeps, Replaces-Keeps, Keeps-refl,
}

-- A worker replaces the message that it claimed.
module _ (s : Spool) (cfg : Config) (now : ℕ) (msg cur : Message) (x : IsIndexed s)
    (e : row s msg.id ≡ some cur)
    (lease : holds_claim cfg cur ≡ true → msg.lease_until ≡ cur.lease_until)
    (idle : is_active msg.state ≡ false) where
  stamped : Message
  stamped = record msg { updated_at = now }

  at_lease :
      holds_claim cfg cur ≡ true
      → (t : ℕ) → expects (row s msg.id) t ≡ true
      → unix msg.lease_until ≡ t
  at_lease holds t h = unfold due_pos in ground (arith, e, lease holds)

  stamped-known :
      (m : Message)
      → some stamped ≡ some m
      → (m.id ≡ msg.id) × (msg.id ≤ s.counter) × (is_active m.state ≡ false)
  stamped-known m h = unfold stamped in ground (arith, x.numbered msg.id cur e, idle)

  record_some : Keeps s (commit_outcome cfg now msg s).1
  unfolding commit_outcome stamped
  record_some = elim (Bool-cases (holds_claim cfg cur)) [
    | inr lost ↦ rw (e, commit_outcome, lost) (unfold commit in Keeps-refl s x)
    | inl holds ↦ elim (Bool-cases (is_terminal msg.state)) [
      | inl over ↦
          rw (e, commit_outcome, holds, over)
            (Replaces-Keeps s _ msg.id (some stamped)
              (close-Replaces s msg.id (unix msg.lease_until) x stamped over (at_lease holds))
              stamped-known (λ n. absurd (cc (n, e))) x)
      | inr waits ↦
          rw (e, commit_outcome, holds, waits)
            (Replaces-Keeps s _ msg.id (some stamped)
              (move-Replaces s msg.id (unix msg.lease_until) x stamped (unix (due_pos stamped)) refl
                waits (at_lease holds))
              stamped-known (λ n. absurd (cc (n, e))) x)
    ]
  ]

pub commit_outcome-Keeps :
    (s : Spool) (cfg : Config) (now : ℕ) (msg : Message)
    → is_active msg.state ≡ false
    → ((cur : Message)
        → row s msg.id ≡ some cur
        → holds_claim cfg cur ≡ true
        → msg.lease_until ≡ cur.lease_until)
    → IsIndexed s
    → Keeps s (commit_outcome cfg now msg s).1
commit_outcome-Keeps s cfg now msg idle lease x = elim (Option-cases (row s msg.id)) [
  | inl e ↦ unfold commit_outcome in rw (e, commit_outcome) (Keeps-refl s x)
  | inr (cur, e) ↦ record_some s cfg now msg cur x e (lease cur e) idle
]

-- The row as the worker wrote it.
pub recorded_row :
    (s : Spool) (cfg : Config) (now : ℕ) (msg : Message)
    → (commit_outcome cfg now msg s).0 ≡ ok true
    → row (commit_outcome cfg now msg s).1 msg.id ≡ some (record msg { updated_at = now })
unfolding commit_outcome commit
recorded_row s cfg now msg h = elim (Option-cases (row s msg.id)) [
  | inl e ↦ absurd (cc (rw (e, commit_outcome) at h))
  | inr (cur, e) ↦ elim (Bool-cases (holds_claim cfg cur)) [
    | inr lost ↦ absurd (cc (rw (e, commit_outcome, lost) at h))
    | inl holds ↦ elim (Bool-cases (is_terminal msg.state)) [
      | inl over ↦ rw (e, commit_outcome, holds, over) (simp (row-apply, ==_refl))
      | inr waits ↦ rw (e, commit_outcome, holds, waits) (simp (row-apply, ==_refl))
    ]
  ]
]
