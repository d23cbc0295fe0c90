-- ===== src/Queue/System/Invariant.antt =====
-- What holds of a deployment of `internal/queue` between two steps: the due index is exact, workers
-- hold the claims that they took, and reserved numbers are free.
use mailezine.Prelude.{
  All-without, All-at, All-map, ℕ, ◌≤◌, ◌≡◌, ◌≢◌, List, [], ◌∷◌, ◌++◌, some, none, All, true, arith,
  if◌then◌else◌, ◌==◌, subst, sym, ap, ◌∙◌,
}
use mailezine.Queue.Message.{Message, Config, is_active}
use mailezine.Queue.Spool.{Spool, row}
use mailezine.Queue.Index.{IsIndexed, Keeps, Quiet, Stays}
use mailezine.Queue.Claim.Cases.{Took}
use mailezine.Queue.Claim.{claim, claimed}
use mailezine.Queue.System.{World, IsFree}

-- If the row still carries the worker's claim, it is the claim that the worker took.
abbrev pub Tracks : Spool → Message → Type 0
Tracks s m =
    (cur : Message)
    → row s m.id ≡ some cur
    → is_active cur.state ≡ true
    → cur.owner ≡ m.owner
    → m.lease_until ≡ cur.lease_until

-- No two numbers of the list are the same.
abbrev pub IsDistinct : List ℕ → Type 0
IsDistinct [] = Unit
IsDistinct (i ∷ ids) = All (λ j. i ≢ j) ids × IsDistinct ids

-- A number that was handed out, of a message that is not stored.
abbrev pub IsReserved : Spool → ℕ → Type 0
IsReserved s id = (row s id ≡ none) × (id ≤ s.counter)

pub record Inv (w : World) : Type 0 where
  pub indexed : IsIndexed w.spool
  pub tracked : All (Tracks w.spool) w.workers
  pub awaited : All (IsReserved w.spool) w.reserved
  pub distinct : IsDistinct w.reserved

pub Quiet-Tracks :
    (s s' : Spool) → Quiet s s' → (ws : List Message) → All (Tracks s) ws → All (Tracks s') ws
Quiet-Tracks s s' q [] h = tt
Quiet-Tracks s s' q (m ∷ ws) h =
    (λ cur e a o. h.0 cur (q m.id cur e a) a o, Quiet-Tracks s s' q ws h.1)

pub Stays-IsReserved :
    (s s' : Spool) (ids : List ℕ) → Stays s s' → All (IsReserved s) ids → All (IsReserved s') ids
Stays-IsReserved s s' ids k =
    All-map (IsReserved s) (IsReserved s') ids
      λ id h. (k.absent id h.0, omega (arith, h.1, k.counted))

pub Keeps-Inv : (w : World) (s : Spool) → Inv w → Keeps w.spool s → Inv (record w { spool = s })
Keeps-Inv w s v k = record {
  indexed = k.indexed;
  tracked = Quiet-Tracks w.spool s k.quiet w.workers v.tracked;
  awaited = Stays-IsReserved w.spool s w.reserved k.stays v.awaited;
  distinct = v.distinct;
}

pub IsDistinct-without :
    (xs : List ℕ) (x : ℕ) (ys : List ℕ)
    → IsDistinct (xs ++ x ∷ ys)
    → IsDistinct (xs ++ ys) × All (λ j. x ≢ j) (xs ++ ys)
IsDistinct-without [] x ys h = (h.1, h.0)
IsDistinct-without (i ∷ xs) x ys h =
    let (rest, apart) = IsDistinct-without xs x ys h.1 in
    (
      (All-without (λ j. i ≢ j) xs x ys h.0, rest),
      (λ e. All-at (λ j. i ≢ j) xs x ys h.0 (sym e), apart),
    )

pub claim-Tracks :
    (s s' : Spool) (id : ℕ) (msg : Message) (ws : List Message)
    → msg.id ≡ id
    → ((j : ℕ) → row s' j ≡ (if id == j then some msg else row s j))
    → IsFree msg.owner id ws
    → All (Tracks s) ws
    → All (Tracks s') ws
claim-Tracks s s' id msg [] e r f h = tt
claim-Tracks s s' id msg (m ∷ ws) e r f h = (
  λ cur ec a o. ground (arith, r m.id, h.0 cur, f.0, ec, a, o),
  claim-Tracks s s' id msg ws e r f.1 h.1,
)

pub claim-Inv :
    (cfg : Config) (now id : ℕ) (s : Spool) (msg : Message) (ws : List Message)
    → IsIndexed s
    → Took cfg now id s msg
    → IsFree cfg.node_id id ws
    → All (Tracks s) ws
    → All (Tracks (claim cfg now id s).1) (msg ∷ ws)
claim-Inv cfg now id s msg ws x t free h =
    let mine : msg.owner ≡ cfg.node_id = unfold claimed in ap (λ m. m.owner) t.taken in
    let same : msg.id ≡ id =
      unfold claimed in ap (λ m. m.id) t.taken ∙ x.keyed id t.before t.found in
    (
      λ cur ec a o. ground (arith, t.rows msg.id, ec, same),
      claim-Tracks s _ id msg ws same t.rows (subst (λ n. IsFree n id ws) (sym mine) free) h,
    )
