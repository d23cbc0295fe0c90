-- ===== src/Queue/Claim/Cases.antt =====
-- `claim` of `internal/queue/queue.go`, case by case.
use mailezine.Prelude.{
  ℕ, ◌+◌, ◌≡◌, ◌≢◌, [], ◌∷◌, none, some, true, false, Option-cases, Bool-cases, inl, inr,
  if◌then◌else◌, ◌==◌,
}
use mailezine.Queue.Message.{Message, Config, is_terminal, unix, due_pos}
use mailezine.Queue.Spool.{Spool, row, commit, ok, err, not_found, put_row, delete_due, put_due}
use mailezine.Queue.Spool.Reads.{row-apply}
use mailezine.Queue.Claim.{claim, claimed, is_live_claim}

module _ (cfg : Config) (now id : ℕ) (s : Spool) where
  pub claim_missing : row s id ≡ none → claim cfg now id s ≡ (err not_found, s)
  unfolding claim
  claim_missing e = rw (e, claim)

  module _ (cur : Message) (e : row s id ≡ some cur) where
    pub claim_over :
        is_terminal cur.state ≡ true
        → claim cfg now id s ≡ (
          ok none,
          commit s (delete_due (unix (due_pos cur)) id ∷ delete_due (unix cur.lease_until) id ∷ []),
        )
    unfolding claim
    claim_over over = rw (e, claim, over)

    pub claim_live :
        is_terminal cur.state ≡ false
        → is_live_claim now cur ≡ true
        → claim cfg now id s ≡ (ok none, s)
    unfolding claim commit
    claim_live waits live = rw (e, claim, waits, live)

    pub claim_free :
        is_terminal cur.state ≡ false
        → is_live_claim now cur ≡ false
        → claim cfg now id s ≡ (
          ok (some (claimed cfg now cur)),
          commit s (
              put_row id (claimed cfg now cur)
              ∷ delete_due (unix (due_pos cur)) id
              ∷ put_due (unix (now + cfg.lease)) id
              ∷ []),
        )
    unfolding claim
    claim_free waits free = rw (e, claim, waits, free)

  -- What a claim that succeeds was given, and what it leaves.
  pub record Took (msg : Message) : Type 0 where
    pub before : Message
    pub found : row s id ≡ some before
    pub waits : is_terminal before.state ≡ false
    pub free : is_live_claim now before ≡ false
    pub taken : msg ≡ claimed cfg now before
    pub rows : (j : ℕ) → row (claim cfg now id s).1 j ≡ (if id == j then some msg else row s j)

  rows_free :
      (cur : Message)
      → row s id ≡ some cur
      → is_terminal cur.state ≡ false
      → is_live_claim now cur ≡ false
      → (j : ℕ)
      → row (claim cfg now id s).1 j ≡ (if id == j then some (claimed cfg now cur) else row s j)
  rows_free cur e waits free j = rw (claim_free cur e waits free) (unfold commit in simp row-apply)

  pub claim-Took : (msg : Message) → (claim cfg now id s).0 ≡ ok (some msg) → Took msg
  claim-Took msg h = elim (Option-cases (row s id)) [
    | inl e ↦ absurd (cc (h, claim_missing e))
    | inr (cur, e) ↦ elim (Bool-cases (is_terminal cur.state)) [
      | inl over ↦ absurd (cc (h, claim_over cur e over))
      | inr waits ↦ elim (Bool-cases (is_live_claim now cur)) [
        | inl live ↦ absurd (cc (h, claim_live cur e waits live))
        | inr free ↦
            let same : msg ≡ claimed cfg now cur = cc (h, claim_free cur e waits free) in
            record {
              before = cur;
              found = e;
              waits = waits;
              free = free;
              taken = same;
              rows = λ j. rw same (rows_free cur e waits free j);
            }
      ]
    ]
  ]

  -- A claim that takes nothing leaves every row.
  pub row-claim_none :
      ((msg : Message) → (claim cfg now id s).0 ≢ ok (some msg))
      → (j : ℕ) → row (claim cfg now id s).1 j ≡ row s j
  row-claim_none h j = elim (Option-cases (row s id)) [
    | inl e ↦ rw (claim_missing e)
    | inr (cur, e) ↦ elim (Bool-cases (is_terminal cur.state)) [
      | inl over ↦ rw (claim_over cur e over) (unfold commit in simp row-apply)
      | inr waits ↦ elim (Bool-cases (is_live_claim now cur)) [
        | inl live ↦ rw (claim_live cur e waits live)
        | inr free ↦ absurd (h (claimed cfg now cur) (rw (claim_free cur e waits free)))
      ]
    ]
  ]
