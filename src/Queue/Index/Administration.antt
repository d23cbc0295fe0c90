-- ===== src/Queue/Index/Administration.antt =====
-- The transactions of `Submit`, `Retry`, `Cancel` and `pruneTerminal` of `internal/queue/queue.go` keep the due index
-- exact, and touch no claim.
use mailezine.Prelude.NatMap
use mailezine.Queue.Spool.{apply, Spool, row, commit}
use mailezine.Queue.Index.{
  Replaces, IsIndexed, expects, move-Replaces, drop-Replaces, drop_one-Replaces, count-IsIndexed,
  new-Replaces, Keeps, Replaces-Keeps, Keeps-refl,
}
use mailezine.Queue.Admin.{
  next_id, retry, cancel, prune_one, requeued, is_doomed, save, new_message,
}
use mailezine.Prelude.{
  ℕ, ◌≡◌, refl, none, some, true, arith, List, Option-cases, Bool-cases, inl, inr, ◌<◌, ◌^◌, ◌%◌,
  ◌==◌, ◌+◌,
}
use mailezine.Queue.Message.{Message, Config, unix, is_terminal, due_pos, is_active}
use mailezine.Bytes.{Bytes}

module _ (s : Spool) (id : ℕ) (x : IsIndexed s) (cur : Message) (e : row s id ≡ some cur) where
  at_due_pos : (t : ℕ) → expects (row s id) t ≡ true → unix (due_pos cur) ≡ t
  at_due_pos t h = ground (arith, e)

  requeue : (now : ℕ) → Keeps s (retry now id s).1
  unfolding retry
  requeue now = elim (Bool-cases (is_active cur.state)) [
    | inl held ↦ rw (e, retry, held) (Keeps-refl s x)
    | inr free ↦ elim (Bool-cases (is_terminal cur.state)) [
      | inl over ↦ rw (e, retry, free, over) (Keeps-refl s x)
      | inr waits ↦
          rw (e, retry, free, waits)
            (Replaces-Keeps s _ id (some (requeued now cur))
              (move-Replaces s id (unix (due_pos cur)) x (requeued now cur) (unix now)
                (unfold requeued due_pos in refl) (unfold requeued is_terminal in refl) at_due_pos)
              (λ m h. unfold requeued in ground (arith, x.keyed id cur e, x.numbered id cur e))
              (λ n. absurd (cc (n, e))) x)
    ]
  ]

  withdraw : Keeps s (cancel id s).1
  unfolding cancel
  withdraw = elim (Bool-cases (is_active cur.state)) [
    | inl held ↦ rw (e, cancel, held) (Keeps-refl s x)
    | inr free ↦
        rw (e, cancel, free)
          (Replaces-Keeps s _ id none
            (drop-Replaces s id (unix (due_pos cur)) x (unix cur.lease_until) at_due_pos)
            (λ m h. cc) (λ n. refl) x)
  ]

  -- A terminal row is deleted with one or two places of the index.
  prune_some : (retention now : ℕ) → Keeps s (prune_one retention now id s).1
  unfolding prune_one
  prune_some retention now = elim (Bool-cases (is_doomed retention now cur)) [
    | inl old ↦ elim (Bool-cases (cur.lease_until == 0)) [
      | inl never ↦
          rw (e, prune_one, old, never)
            (Replaces-Keeps s _ id none (drop_one-Replaces s id (unix (due_pos cur)) x at_due_pos)
              (λ m h. cc) (λ n. refl) x)
      | inr once ↦
          rw (e, prune_one, old, once)
            (Replaces-Keeps s _ id none
              (drop-Replaces s id (unix (due_pos cur)) x (unix cur.lease_until) at_due_pos)
              (λ m h. cc) (λ n. refl) x)
    ]
    | inr young ↦ rw (e, prune_one, young) (unfold commit in Keeps-refl s x)
  ]

pub retry-Keeps : (s : Spool) (now id : ℕ) → IsIndexed s → Keeps s (retry now id s).1
retry-Keeps s now id x = elim (Option-cases (row s id)) [
  | inl e ↦ unfold retry in rw (e, retry) (Keeps-refl s x)
  | inr (cur, e) ↦ requeue s id x cur e now
]

pub cancel-Keeps : (s : Spool) (id : ℕ) → IsIndexed s → Keeps s (cancel id s).1
cancel-Keeps s id x = elim (Option-cases (row s id)) [
  | inl e ↦ unfold cancel in rw (e, cancel) (Keeps-refl s x)
  | inr (cur, e) ↦ withdraw s id x cur e
]

pub prune_one-Keeps :
    (s : Spool) (retention now id : ℕ) → IsIndexed s → Keeps s (prune_one retention now id s).1
prune_one-Keeps s retention now id x = elim (Option-cases (row s id)) [
  | inl e ↦ unfold prune_one in rw (e, prune_one) (Keeps-refl s x)
  | inr (cur, e) ↦ prune_some s id x cur e retention now
]

next_counter : (n : ℕ) → n + 1 < 2 ^ 64 → (n + 1) % 2 ^ 64 ≡ n + 1
next_counter n h = omega arith

-- The transaction of `nextID` under a counter that does not wrap: the number that it hands out is
-- new.
pub next_id-Keeps :
    (s : Spool) → s.counter + 1 < 2 ^ 64 → IsIndexed s → Keeps s (commit s (next_id s).1)
unfolding next_id commit apply row
next_id-Keeps s room x = record {
  indexed =
      unfold commit apply in
      rw (next_counter s.counter room) (count-IsIndexed s (s.counter + 1) (omega arith) x);
  quiet = λ j cur e a. e;
  stays = record { absent = λ j e. e; counted = rw (next_counter s.counter room) (omega arith) };
}

pub next_id-fresh :
    (s : Spool)
    → s.counter + 1 < 2 ^ 64
    → IsIndexed s
    → ((next_id s).0 ≡ s.counter + 1)
      × (row (commit s (next_id s).1) (next_id s).0 ≡ none)
      × ((commit s (next_id s).1).counter ≡ s.counter + 1)
unfolding next_id commit apply row
next_id-fresh s room x = rw (next_counter s.counter room) (
  refl,
  elim (Option-cases (NatMap.get (s.counter + 1) s.rows)) [
    | inl e ↦ e
    | inr (m, e) ↦ absurd (omega (arith, x.numbered (s.counter + 1) m (unfold row in e)))
  ],
  refl,
)

-- The batch with which `Submit` stores its message.
pub save-Replaces :
    (cfg : Config) (now id : ℕ) (from : Bytes) (to : List Bytes) (subject : Bytes) (size : ℕ)
    (s : Spool)
    → IsIndexed s
    → row s id ≡ none
    → Replaces s
        (save now (new_message cfg now id from to subject size) 0 s)
        id
        (some (new_message cfg now id from to subject size))
unfolding save new_message is_terminal due_pos
save-Replaces cfg now id from to subject size s x e =
    new-Replaces s id 0 x (new_message cfg now id from to subject size) e refl
