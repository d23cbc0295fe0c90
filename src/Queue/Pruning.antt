-- ===== src/Queue/Pruning.antt =====
-- `pruneTerminal` of `internal/queue/queue.go`: which rows it drops.
use mailezine.Prelude.{
  ℕ, ◌≡◌, ◌+◌, ◌≤◌, List, [], ◌∷◌, some, none, true, false, arith, ==_refl, if◌then◌else◌, ◌==◌,
  Option-cases, Bool-cases, inl, inr, Bool, subst, sym, suc, ◌⊎◌,
}
use mailezine.Prelude.NatMap
use mailezine.Prelude.Int.{ℤ, pos, negsuc}
use mailezine.Queue.Message.{Message, Config, is_terminal}
use mailezine.Queue.Spool.{Spool, row, commit}
use mailezine.Queue.Spool.Reads.{row-apply}
use mailezine.Queue.Admin.{doomed, is_doomed, prune_one, prune_all, prune_for, prune_terminal}

module _ (n now : ℕ) where
  -- A row that is not to go stays.
  pub row-prune_one :
      (s : Spool) (id j : ℕ) (m : Message)
      → row s j ≡ some m
      → is_doomed n now m ≡ false
      → row (prune_one n now id s).1 j ≡ some m
  unfolding prune_one
  row-prune_one s id j m e keep = elim (Option-cases (row s id)) [
    | inl none_there ↦ rw (none_there, prune_one) e
    | inr (cur, there) ↦ elim (Bool-cases (is_doomed n now cur)) [
      | inr stays ↦ rw (there, prune_one, stays) (unfold commit in e)
      | inl goes ↦ elim (Bool-cases (cur.lease_until == 0)) [
        | inl never ↦
            rw (there, prune_one, goes, never)
              (unfold commit in simp row-apply (ground (arith, e, keep, there, goes)))
        | inr leased ↦
            rw (there, prune_one, goes, leased)
              (unfold commit in simp row-apply (ground (arith, e, keep, there, goes)))
      ]
    ]
  ]

  row-prune_all :
      (ids : List ℕ) (s : Spool) (j : ℕ) (m : Message)
      → row s j ≡ some m
      → is_doomed n now m ≡ false
      → row (prune_all n now ids s) j ≡ some m
  unfolding prune_all
  row-prune_all [] s j m e keep = e
  row-prune_all (id ∷ ids) s j m e keep =
      row-prune_all ids (prune_one n now id s).1 j m (row-prune_one s id j m e keep) keep

  gone_stays : (s : Spool) (id j : ℕ) → row s j ≡ none → row (prune_one n now id s).1 j ≡ none
  unfolding prune_one
  gone_stays s id j e = elim (Option-cases (row s id)) [
    | inl none_there ↦ rw (none_there, prune_one) e
    | inr (cur, there) ↦ elim (Bool-cases (is_doomed n now cur)) [
      | inr stays ↦ rw (there, prune_one, stays) (unfold commit in e)
      | inl goes ↦ elim (Bool-cases (cur.lease_until == 0)) [
        | inl never ↦
            rw (there, prune_one, goes, never) (unfold commit in simp row-apply (ground (arith, e)))
        | inr leased ↦
            rw (there, prune_one, goes, leased)
              (unfold commit in simp row-apply (ground (arith, e)))
      ]
    ]
  ]

  doomed_goes :
      (s : Spool) (id : ℕ) (m : Message)
      → row s id ≡ some m
      → is_doomed n now m ≡ true
      → row (prune_one n now id s).1 id ≡ none
  unfolding prune_one
  doomed_goes s id m there goes = elim (Bool-cases (m.lease_until == 0)) [
    | inl never ↦ rw (there, prune_one, goes, never) (unfold commit in simp (row-apply, ==_refl))
    | inr leased ↦ rw (there, prune_one, goes, leased) (unfold commit in simp (row-apply, ==_refl))
  ]

  other_row :
      (s : Spool) (id j : ℕ) (m cur : Message)
      → row s id ≡ some cur
      → is_doomed n now cur ≡ true
      → row s j ≡ some m
      → (id == j) ≡ false
      → row (prune_one n now id s).1 j ≡ some m
  unfolding prune_one
  other_row s id j m cur there goes e apart = elim (Bool-cases (cur.lease_until == 0)) [
    | inl never ↦
        rw (there, prune_one, goes, never)
          (unfold commit in simp row-apply (ground (arith, e, apart)))
    | inr leased ↦
        rw (there, prune_one, goes, leased)
          (unfold commit in simp row-apply (ground (arith, e, apart)))
  ]

  abbrev listed : ℕ → List ℕ → Bool
  listed id [] = false
  listed id (j ∷ js) = if j == id then true else listed id js

  all_gone_stays :
      (ids : List ℕ) (s : Spool) (j : ℕ) → row s j ≡ none → row (prune_all n now ids s) j ≡ none
  unfolding prune_all
  all_gone_stays [] s j e = e
  all_gone_stays (id ∷ ids) s j e =
      all_gone_stays ids (prune_one n now id s).1 j (gone_stays s id j e)

  stays_or_goes :
      (s : Spool) (id j : ℕ) (m : Message)
      → row s j ≡ some m
      → (row (prune_one n now id s).1 j ≡ some m) ⊎ (row (prune_one n now id s).1 j ≡ none)
  unfolding prune_one
  stays_or_goes s id j m e = elim (Option-cases (row s id)) [
    | inl none_there ↦ inl (rw (none_there, prune_one) e)
    | inr (cur, there) ↦ elim (Bool-cases (is_doomed n now cur)) [
      | inr stays ↦ inl (rw (there, prune_one, stays) (unfold commit in e))
      | inl goes ↦ elim (Bool-cases (id == j)) [
        | inl here ↦
            let same : id ≡ j = ground (arith, here) in
            inr (
              subst (λ k. row (prune_one n now id s).1 k ≡ none) same
                (doomed_goes s id cur there goes))
        | inr apart ↦ inl (other_row s id j m cur there goes e apart)
      ]
    ]
  ]

  listed_goes :
      (ids : List ℕ) (s : Spool) (id : ℕ) (m : Message)
      → listed id ids ≡ true
      → row s id ≡ some m
      → is_doomed n now m ≡ true
      → row (prune_all n now ids s) id ≡ none
  unfolding prune_all
  listed_goes [] s id m l e goes = absurd (cc (l))
  listed_goes (j ∷ js) s id m l e goes = elim (Bool-cases (j == id)) [
    | inl here ↦
        let same : j ≡ id = ground (arith, here) in
        all_gone_stays js (prune_one n now j s).1 id (
          subst (λ k. row (prune_one n now k s).1 id ≡ none) (sym same) (doomed_goes s id m e goes))
    | inr apart ↦ elim (stays_or_goes s j id m e) [
      | inl still ↦ listed_goes js (prune_one n now j s).1 id m (rw apart at l) still goes
      | inr gone ↦ all_gone_stays js (prune_one n now j s).1 id gone
    ]
  ]

  doomed-listed :
      (rows : List (ℕ × Message)) (id : ℕ) (m : Message)
      → NatMap.get id rows ≡ some m
      → m.id ≡ id
      → is_doomed n now m ≡ true
      → listed id (doomed n now rows) ≡ true
  unfolding NatMap.get doomed
  doomed-listed [] id m e k goes = absurd (cc (e))
  doomed-listed ((i, w) ∷ rows) id m e k goes = ground (arith, doomed-listed rows id m, e, k, goes)

prune_for_keeps :
    (retention : ℤ) (now : ℕ) (s : Spool) (id : ℕ) (m : Message)
    → row s id ≡ some m
    → is_terminal m.state ≡ false
    → row (prune_for retention now s) id ≡ some m
unfolding is_doomed
prune_for_keeps (pos n) now s id m e waits = elim (Bool-cases (n == 0)) [
  | inl off ↦ rw off e
  | inr on ↦ rw on (row-prune_all n now (doomed n now s.rows) s id m e (ground (arith, waits)))
]
prune_for_keeps (negsuc n) now s id m e waits = e

-- Pruning leaves the row of a message that is not over, whatever the retention.
pub prune_keeps :
    (cfg : Config) (now : ℕ) (s : Spool) (id : ℕ) (m : Message)
    → row s id ≡ some m
    → is_terminal m.state ≡ false
    → row (prune_terminal cfg now s) id ≡ some m
unfolding prune_terminal
prune_keeps cfg now s id m e waits = prune_for_keeps cfg.terminal_retention now s id m e waits

-- With a positive retention, pruning drops the row of every message that is stored under its own
-- number, is over, and was last written a retention or more ago.
pub prune_drops :
    (cfg : Config) (now n : ℕ) (s : Spool) (id : ℕ) (m : Message)
    → cfg.terminal_retention ≡ pos (suc n)
    → row s id ≡ some m
    → m.id ≡ id
    → is_terminal m.state ≡ true
    → m.updated_at + suc n ≤ now
    → row (prune_terminal cfg now s) id ≡ none
unfolding prune_terminal is_doomed
prune_drops cfg now n s id m r e same over old =
    let goes : is_doomed (suc n) now m ≡ true = ground (arith, over, old) in
    let on : (suc n == 0) ≡ false = ground arith in
    rw (r, on)
      (listed_goes (suc n) now (doomed (suc n) now s.rows) s id m
        (doomed-listed (suc n) now s.rows id m (unfold row in e) same goes) e goes)
