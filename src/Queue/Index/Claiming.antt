-- ===== src/Queue/Index/Claiming.antt =====
-- `claim` of `internal/queue/queue.go` keeps the due index exact.
use mailezine.Prelude.{
  Option, ℕ, ◌≡◌, refl, some, true, arith, ◌≤◌, Option-cases, Bool-cases, inl, inr, ◌+◌,
}
use mailezine.Queue.Message.{Message, Config, unix, is_terminal, due_pos}
use mailezine.Queue.Spool.{Spool, row, commit}
use mailezine.Queue.Claim.{claim, claimed, is_live_claim}
use mailezine.Queue.Index.{
  IsIndexed, expects, Replaces-IsIndexed, Replaces-Stays, Stays-refl, Stays, Replaces,
  move-Replaces, heal-Replaces,
}

module _ (s : Spool) (id : ℕ) (x : IsIndexed s) (cur : Message) (e : row s id ≡ some cur) where
  at_due_pos : (t : ℕ) → expects (row s id) t ≡ true → unix (due_pos cur) ≡ t
  at_due_pos t h = ground (arith, e)

  known :
      (m : Message) (r : Message) → r.id ≡ cur.id → some r ≡ some m → (m.id ≡ id) × (id ≤ s.counter)
  known m r same h = ground (arith, x.keyed id cur e, x.numbered id cur e)

  both :
      {s' : Spool} (r : Option Message)
      → Replaces s s' id r
      → ((m : Message) → r ≡ some m → (m.id ≡ id) × (id ≤ s.counter))
      → IsIndexed s' × Stays s s'
  both {s'} r c k =
      (Replaces-IsIndexed s s' id r c k x, Replaces-Stays s s' id r c (λ n. absurd (cc (n, e))))

  claim_some :
      (cfg : Config) (now : ℕ) → IsIndexed (claim cfg now id s).1 × Stays s (claim cfg now id s).1
  unfolding claim
  claim_some cfg now = elim (Bool-cases (is_terminal cur.state)) [
    | inl over ↦
        rw (e, claim, over)
          (both (some cur)
            (heal-Replaces s id (unix (due_pos cur)) x (unix cur.lease_until) cur e over)
            (λ m. known m cur refl))
    | inr waits ↦ elim (Bool-cases (is_live_claim now cur)) [
      | inl live ↦ rw (e, claim, waits, live) (unfold commit in (x, Stays-refl s))
      | inr free ↦
          rw (e, claim, waits, free)
            (both (some (claimed cfg now cur))
              (move-Replaces s id (unix (due_pos cur)) x (claimed cfg now cur)
                (unix (now + cfg.lease)) (unfold claimed due_pos in refl)
                (unfold claimed is_terminal in refl) (at_due_pos))
              (λ m. known m (claimed cfg now cur) (unfold claimed in refl)))
    ]
  ]

-- `claim` on any message, live or stale, keeps the index exact, and no row appears.
pub claim-IsIndexed :
    (s : Spool) (cfg : Config) (now id : ℕ)
    → IsIndexed s
    → IsIndexed (claim cfg now id s).1 × Stays s (claim cfg now id s).1
claim-IsIndexed s cfg now id x = elim (Option-cases (row s id)) [
  | inl e ↦ unfold claim in rw (e, claim) (x, Stays-refl s)
  | inr (cur, e) ↦ claim_some s id x cur e cfg now
]
