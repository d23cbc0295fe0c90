-- ===== src/Queue/System/Exclusion.antt =====
-- Who may deliver a message, over the steps of several nodes (`internal/queue/queue.go`).
use mailezine.Prelude.{
  ℕ, ◌+◌, ◌<◌, ◌≤◌, ◌≡◌, ◌≢◌, refl, ◌∷◌, some, none, true, false, arith, ◌==◌, subst, sym, ◌∙◌,
  Option, Option-cases, Bool-cases, inl, inr,
}
use mailezine.Bytes.{Bytes, bytes_eq_iff}
use mailezine.Prelude.Int.{ℤ, pos, negsuc}
use mailezine.Queue.Message.{
  Message, Config, State, deferred, bounced, is_active, is_terminal, due_pos,
}
use mailezine.Queue.Spool.{Spool, row, commit, ok, apply}
use mailezine.Queue.Spool.Reads.{row-apply}
use mailezine.Queue.Admin.{next_id, new_message, save, retry, cancel, is_doomed}
use mailezine.Queue.Pruning.{row-prune_one}
use mailezine.Queue.Claim.{claim, claimed, is_live_claim}
use mailezine.Queue.Claim.Cases.{claim-Took, claim_live, row-claim_none}
use mailezine.Queue.Fencing.{claimed_row}
use mailezine.Queue.Outcome.{commit_outcome, holds_claim, maybe_delay_warning, warn_after, outcome}
use mailezine.Queue.Outcome.Facts.{outcome-Settles}
use mailezine.Queue.Process.{after_commit, after_state, warn}
use mailezine.Queue.System.{
  World, Step, numbers, submits, claims, skips, records, follows, retries, cancels, prunes, ticks,
  Reach, here, next,
}

warned_id :
    (cfg : Config) (now : ℕ) (out v : Message)
    → warn_after cfg.delay_warning now out ≡ some v
    → v.id ≡ out.id
warned_id cfg now out v h = by_interval cfg.delay_warning h
  where
    by_interval : (w : ℤ) → warn_after w now out ≡ some v → v.id ≡ out.id
    by_interval (pos n) g = ground (arith, g)
    by_interval (negsuc n) g = absurd (cc g)

-- A message that is stored, and the steps on the spool one by one.
module _ (s : Spool) (id : ℕ) (m : Message) (e : row s id ≡ some m) where
  row-save_other :
      (now old : ℕ) (w : Message) → (w.id == id) ≡ false → row (save now w old s) id ≡ some m
  unfolding save commit
  row-save_other now old w other = elim (Bool-cases (is_terminal w.state)) [
    | inl over ↦ rw (save, over) (simp row-apply (ground (arith, other, e)))
    | inr waits ↦ elim (Bool-cases (old == 0)) [
      | inl never ↦ rw (save, waits, never) (simp row-apply (ground (arith, other, e)))
      | inr later ↦ elim (Bool-cases (old == due_pos (record w { updated_at = now }))) [
        | inl same ↦ rw (save, waits, later, same) (simp row-apply (ground (arith, other, e)))
        | inr moved ↦ rw (save, waits, later, moved) (simp row-apply (ground (arith, other, e)))
      ]
    ]
  ]

  row-warn_other :
      (now : ℕ) (out : Message) (w : Option Message)
      → ((v : Message) → w ≡ some v → v.id ≡ out.id)
      → (out.id == id) ≡ false
      → row (warn now out s w).spool id ≡ some m
  row-warn_other now out none same other = e
  row-warn_other now out (some v) same other =
      row-save_other now out.next_attempt v (rw (same v refl) other)

  row-after_commit_other :
      (cfg : Config) (now : ℕ) (out : Message)
      → (out.id == id) ≡ false
      → row (after_commit cfg now out s).spool id ≡ some m
  unfolding after_commit
  row-after_commit_other cfg now out other = by_state out.state
    where
      by_state : (st : State) → row (after_state st cfg now out s).spool id ≡ some m
      by_state deferred =
          row-warn_other now out (maybe_delay_warning cfg now out)
            (λ v h. warned_id cfg now out v (unfold maybe_delay_warning in h)) other
      by_state bounced = e
      by_state _ = e

  row-commit_outcome_other :
      (cfg : Config) (now : ℕ) (out : Message)
      → (out.id ≡ id → cfg.node_id ≢ m.owner)
      → row (commit_outcome cfg now out s).1 id ≡ some m
  unfolding commit_outcome commit
  row-commit_outcome_other cfg now out away = elim (Option-cases (row s out.id)) [
    | inl missing ↦ rw (missing, commit_outcome) e
    | inr (cur, there) ↦ elim (Bool-cases (holds_claim cfg cur)) [
      | inr lost ↦ rw (there, commit_outcome, lost) e
      | inl holds ↦
          let other : (out.id == id) ≡ false =
            ground (arith, away, there, e, holds, bytes_eq_iff cur.owner cfg.node_id) in
          elim (Bool-cases (is_terminal out.state)) [
            | inl over ↦
                rw (there, commit_outcome, holds, over) (simp row-apply (ground (arith, other, e)))
            | inr waits ↦
                rw (there, commit_outcome, holds, waits) (simp row-apply (ground (arith, other, e)))
          ]
    ]
  ]

  module _ (held : is_active m.state ≡ true) where
    row-retry_active : (now j : ℕ) → row (retry now j s).1 id ≡ some m
    unfolding retry commit
    row-retry_active now j = elim (Option-cases (row s j)) [
      | inl missing ↦ rw (missing, retry) e
      | inr (cur, there) ↦ elim (Bool-cases (is_active cur.state)) [
        | inl busy ↦ rw (there, retry, busy) e
        | inr idle ↦ elim (Bool-cases (is_terminal cur.state)) [
          | inl over ↦ rw (there, retry, idle, over) e
          | inr waits ↦
              rw (there, retry, idle, waits) (simp row-apply (ground (arith, there, e, idle, held)))
        ]
      ]
    ]

    row-cancel_active : (j : ℕ) → row (cancel j s).1 id ≡ some m
    unfolding cancel commit
    row-cancel_active j = elim (Option-cases (row s j)) [
      | inl missing ↦ rw (missing, cancel) e
      | inr (cur, there) ↦ elim (Bool-cases (is_active cur.state)) [
        | inl busy ↦ rw (there, cancel, busy) e
        | inr idle ↦
            rw (there, cancel, idle) (simp row-apply (ground (arith, there, e, idle, held)))
      ]
    ]

    row-claim_live :
        (cfg : Config) (now j : ℕ) (msg : Message)
        → now < m.lease_until
        → (claim cfg now j s).0 ≡ ok (some msg)
        → row (claim cfg now j s).1 id ≡ some m
    unfolding is_live_claim
    row-claim_live cfg now j msg soon h =
        let t = claim-Took cfg now j s msg h in
        ground (arith, t.rows id, t.found, t.free, e, held, soon)

-- A step that is not the end of the claim: no outcome of its owner for the message, no warning about
-- the message, no submission under its number.
abbrev pub IsAside : {w u : World} → ℕ → Bytes → Step w u → Type 0
IsAside id owner (submits before j after cfg from to subject size e) = j ≢ id
IsAside id owner (records before msg after cfg jitter deliver body e o) =
    msg.id ≡ id → cfg.node_id ≢ owner
IsAside id owner (follows before out after cfg e) = out.id ≢ id
IsAside id owner _ = Unit

abbrev pub AllAside : {w u : World} → ℕ → Bytes → Reach w u → Type 0
AllAside id owner here = Unit
AllAside id owner (next r st) = AllAside id owner r × IsAside id owner st

Step-now : {w u : World} → Step w u → w.now ≤ u.now
Step-now (ticks later) = omega arith
Step-now _ = omega arith

Step-row :
    {w u : World} (id : ℕ) (m : Message) (st : Step w u)
    → IsAside id m.owner st
    → is_active m.state ≡ true
    → u.now < m.lease_until
    → row w.spool id ≡ some m
    → row u.spool id ≡ some m
Step-row {w} id m (numbers room) aside held soon e = unfold next_id commit apply row in e
Step-row {w} id m (submits before j after cfg from to subject size at) aside held soon e =
    row-save_other w.spool id m e w.now 0 (new_message cfg w.now j from to subject size)
      (unfold new_message in ground (arith, aside))
Step-row {w} id m (claims cfg j msg free h) aside held soon e =
    row-claim_live w.spool id m e held cfg w.now j msg soon h
Step-row {w} id m (skips cfg j idle) aside held soon e =
    row-claim_none cfg w.now j w.spool idle id ∙ e
Step-row {w} id m (records before msg after cfg jitter deliver body at o) aside held soon e =
    let kept = outcome-Settles jitter cfg w.now msg deliver body in
    row-commit_outcome_other w.spool id m e cfg w.now (outcome jitter cfg w.now deliver body msg)
      λ same. aside (sym kept.id ∙ same)
Step-row {w} id m (follows before out after cfg at) aside held soon e =
    row-after_commit_other w.spool id m e cfg w.now out (ground (arith, aside))
Step-row {w} id m (retries j) aside held soon e = row-retry_active w.spool id m e held w.now j
Step-row {w} id m (cancels j) aside held soon e = row-cancel_active w.spool id m e held j
Step-row {w} id m (prunes retention j) aside held soon e =
    row-prune_one retention w.now w.spool j id m e
      (unfold is_doomed is_terminal in ground (arith, held))
Step-row {w} id m _ aside held soon e = e

Reach-row :
    {w u : World} (id : ℕ) (m : Message) (r : Reach w u)
    → AllAside id m.owner r
    → is_active m.state ≡ true
    → u.now < m.lease_until
    → row w.spool id ≡ some m
    → row u.spool id ≡ some m
Reach-row id m here aside held soon e = e
Reach-row id m (next r st) aside held soon e =
    Step-row id m st aside.1 held soon
      (Reach-row id m r aside.0 held (omega (arith, Step-now st, soon)) e)

-- After a node has claimed a message, whatever other steps the nodes take, as long as its own outcome
-- for the message is not committed, no warning about an earlier outcome of the message is written,
-- and no submission uses the message's number: before the lease ends, no node, itself included,
-- claims it. Such a claim gets nothing and leaves the spool as it is.
pub claim_exclusive :
    {v : World} (first second : Config) (id : ℕ) (w : World) (msg : Message)
    (r : Reach (record w { spool = (claim first w.now id w.spool).1; workers = msg ∷ w.workers }) v)
    → (claim first w.now id w.spool).0 ≡ ok (some msg)
    → AllAside id first.node_id r
    → v.now < w.now + first.lease
    → claim second v.now id v.spool ≡ (ok none, v.spool)
claim_exclusive {v} first second id w msg r h aside soon =
    let took = claim-Took first w.now id w.spool msg h in
    let owner : msg.owner ≡ first.node_id = unfold claimed in rw took.taken in
    let held : is_active msg.state ≡ true = unfold claimed in rw took.taken refl in
    let live : v.now < msg.lease_until = unfold claimed in rw took.taken soon in
    let kept =
      Reach-row id msg r (subst (λ o. AllAside id o r) (sym owner) aside) held live
        (claimed_row first w.now id w.spool msg h) in
    claim_live second v.now id v.spool msg kept (unfold is_terminal in ground (arith, held))
      (unfold is_live_claim in ground (arith, held, live))
