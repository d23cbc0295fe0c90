-- ===== src/Queue/System/Safety.antt =====
-- Whatever the nodes do and in whatever order, the due index of `internal/queue` stays exact, as long
-- as no delay warning overwrites what came after its outcome.
use mailezine.Prelude.{
  All-without, All-at, All-map, All-zip, ℕ, ◌+◌, ◌<◌, ◌^◌, ◌≡◌, ◌≢◌, refl, List, ◌∷◌, ◌++◌, some,
  All, false, arith, subst, sym, ◌∙◌,
}
use mailezine.Queue.Message.{Message, Config, Time, is_active}
use mailezine.Queue.Spool.{Spool, row, is_due, commit}
use mailezine.Queue.Outcome.{commit_outcome}
use mailezine.Bytes.{bytes_eq_iff}
use mailezine.Prelude.NatMap
use mailezine.Queue.Admin.{next_id, new_message}
use mailezine.Queue.Index.{expects, Keeps, Keeps-refl, Replaces, Replaces-IsIndexed}
use mailezine.Queue.Claim.Cases.{claim-Took, row-claim_none}
use mailezine.Queue.Outcome.Facts.{Settles, outcome-Settles}
use mailezine.Queue.Index.Claiming.{claim-IsIndexed}
use mailezine.Queue.Index.Administration.{
  next_id-Keeps, next_id-fresh, save-Replaces, retry-Keeps, cancel-Keeps, prune_one-Keeps,
}
use mailezine.Queue.Index.Recording.{commit_outcome-Keeps}
use mailezine.Queue.Index.Warning.{after_commit-Keeps}
use mailezine.Queue.System.{
  World, start, Step, numbers, submits, gives_up, claims, skips, records, follows, crashes, retries,
  cancels, prunes, ticks, Reach, here, next,
}
use mailezine.Queue.System.Invariant.{
  Tracks, IsDistinct, IsReserved, Inv, Quiet-Tracks, Stays-IsReserved, Keeps-Inv,
  IsDistinct-without, claim-Inv,
}

records-Keeps :
    (w : World) (before : List Message) (msg : Message) (after : List Message) (cfg : Config)
    (out : Message)
    → Settles msg out
    → w.workers ≡ before ++ msg ∷ after
    → msg.owner ≡ cfg.node_id
    → Inv w
    → Keeps w.spool (commit_outcome cfg w.now out w.spool).1
records-Keeps w before msg after cfg out t e mine v =
    let tracked = subst (All (Tracks w.spool)) e v.tracked in
    commit_outcome-Keeps w.spool cfg w.now out t.idle
      (λ cur ec holds. ground (
        arith,
        All-at (Tracks w.spool) before msg after tracked cur,
        t.id,
        t.lease,
        mine,
        bytes_eq_iff cur.owner cfg.node_id,
        ec,
        holds,
      ))
      v.indexed

-- A worker that ends, its outcome recorded or not.
ends-Inv :
    (w : World) (before : List Message) (msg : Message) (after : List Message) (s : Spool)
    (settled : List Message)
    → w.workers ≡ before ++ msg ∷ after
    → Keeps w.spool s
    → Inv w
    → Inv (record w { spool = s; workers = before ++ after; settled = settled })
ends-Inv w before msg after s settled e k v =
    let u = Keeps-Inv w s v k in
    record {
      indexed = u.indexed;
      tracked = All-without (Tracks s) before msg after (subst (All (Tracks s)) e u.tracked);
      awaited = u.awaited;
      distinct = u.distinct;
    }

numbers-Inv :
    (w : World)
    → w.spool.counter + 1 < 2 ^ 64
    → Inv w
    → Inv (record w {
      spool = commit w.spool (next_id w.spool).1;
      reserved = (next_id w.spool).0 ∷ w.reserved;
    })
numbers-Inv w room v =
    let u = Keeps-Inv w _ v (next_id-Keeps w.spool room v.indexed) in
    let (id, absent, counted) = next_id-fresh w.spool room v.indexed in
    record {
      indexed = u.indexed;
      tracked = u.tracked;
      awaited = ((absent, omega (arith, id, counted)), u.awaited);
      distinct = (
        All-map (IsReserved w.spool) (λ j. (next_id w.spool).0 ≢ j) w.reserved
            (λ j h e. omega (arith, h.1, id, e)) v.awaited,
        v.distinct,
      );
    }

-- A message stored under a reserved number: nothing else changes.
submits-Inv :
    (w : World) (before : List ℕ) (id : ℕ) (after : List ℕ) (m : Message) (s : Spool)
    → w.reserved ≡ before ++ id ∷ after
    → m.id ≡ id
    → is_active m.state ≡ false
    → Replaces w.spool s id (some m)
    → Inv w
    → Inv (record w { spool = s; reserved = before ++ after })
submits-Inv w before id after m s e same idle c v =
    let awaited = subst (All (IsReserved w.spool)) e v.awaited in
    let mine = All-at (IsReserved w.spool) before id after awaited in
    let (distinct, apart) = IsDistinct-without before id after (subst IsDistinct e v.distinct) in
    record {
      indexed =
          Replaces-IsIndexed w.spool s id (some m) c (λ r h. ground (arith, same, mine.1, h))
            v.indexed;
      tracked =
          Quiet-Tracks w.spool s (λ j cur f a. ground (arith, c.rows j, f, a, idle)) w.workers
            v.tracked;
      awaited =
          All-zip (IsReserved w.spool) (λ j. id ≢ j) (IsReserved s) (before ++ after)
            (λ j h n. (ground (arith, c.rows j, h.0, n), omega (arith, h.1, c.counted)))
            (All-without (IsReserved w.spool) before id after awaited) apart;
      distinct = distinct;
    }

-- A step that writes a delay warning does so while the row is still the outcome that it is about, as
-- that was recorded; of other steps nothing is asked.
abbrev pub IsUndisturbed : {w u : World} → Step w u → Type 0
IsUndisturbed {w} (follows before out after cfg e) =
    (at : Time) × (row w.spool out.id ≡ some (record out { updated_at = at }))
IsUndisturbed _ = Unit

-- So does each such step of a run.
abbrev pub IsCalm : {v w : World} → Reach v w → Type 0
IsCalm here = Unit
IsCalm (next r st) = IsCalm r × IsUndisturbed st

Step-Inv : {w v : World} (st : Step w v) → IsUndisturbed st → Inv w → Inv v
Step-Inv {w} (numbers room) calm v = numbers-Inv w room v
Step-Inv {w} (submits before id after cfg from to subject size e) calm v =
    let mine =
      All-at (IsReserved w.spool) before id after (subst (All (IsReserved w.spool)) e v.awaited) in
    submits-Inv w before id after (new_message cfg w.now id from to subject size) _ e
      (unfold new_message in refl) (unfold new_message in refl)
      (save-Replaces cfg w.now id from to subject size w.spool v.indexed mine.0) v
Step-Inv {w} (gives_up before id after e) calm v = record {
  indexed = v.indexed;
  tracked = v.tracked;
  awaited =
      All-without (IsReserved w.spool) before id after
        (subst (All (IsReserved w.spool)) e v.awaited);
  distinct = (IsDistinct-without before id after (subst IsDistinct e v.distinct)).0;
}
Step-Inv {w} (claims cfg id msg free e) calm v =
    let t = claim-Took cfg w.now id w.spool msg e in
    let (indexed, stays) = claim-IsIndexed w.spool cfg w.now id v.indexed in
    record {
      indexed = indexed;
      tracked = claim-Inv cfg w.now id w.spool msg w.workers v.indexed t free v.tracked;
      awaited = Stays-IsReserved w.spool _ w.reserved stays v.awaited;
      distinct = v.distinct;
    }
Step-Inv {w} (skips cfg id idle) calm v =
    let (indexed, stays) = claim-IsIndexed w.spool cfg w.now id v.indexed in
    Keeps-Inv w _ v (record {
      indexed = indexed;
      quiet = λ j cur e a. sym (row-claim_none cfg w.now id w.spool idle j) ∙ e;
      stays = stays;
    })
Step-Inv {w} (records before msg after cfg jitter deliver body e o) calm v =
    ends-Inv w before msg after _ _ e
      (records-Keeps w before msg after cfg _ (outcome-Settles jitter cfg w.now msg deliver body) e
        o v)
      v
Step-Inv {w} (follows before out after cfg e) calm v =
    let u = Keeps-Inv w _ v (after_commit-Keeps cfg w.now calm.0 out w.spool v.indexed calm.1) in
    record { indexed = u.indexed; tracked = u.tracked; awaited = u.awaited; distinct = u.distinct }
Step-Inv {w} (crashes before msg after e) calm v =
    ends-Inv w before msg after w.spool w.settled e (Keeps-refl w.spool v.indexed) v
Step-Inv {w} (retries id) calm v = Keeps-Inv w _ v (retry-Keeps w.spool w.now id v.indexed)
Step-Inv {w} (cancels id) calm v = Keeps-Inv w _ v (cancel-Keeps w.spool id v.indexed)
Step-Inv {w} (prunes retention id) calm v =
    Keeps-Inv w _ v (prune_one-Keeps w.spool retention w.now id v.indexed)
Step-Inv {w} (ticks later) calm v = record {
  indexed = v.indexed;
  tracked = v.tracked;
  awaited = v.awaited;
  distinct = v.distinct;
}

start-Inv : Inv start
unfolding row NatMap.get is_due NatMap.has
start-Inv = record {
  indexed = record { exact = λ t id. refl; keyed = λ id m e. cc; numbered = λ id m e. absurd (cc) };
  tracked = tt;
  awaited = tt;
  distinct = tt;
}

Reach-Inv : {w : World} (r : Reach start w) → IsCalm r → Inv w
Reach-Inv here calm = start-Inv
Reach-Inv (next r st) calm = Step-Inv st calm.1 (Reach-Inv r calm.0)

-- After any sequence of transactions of any number of nodes (numbers and rows of submissions, claims,
-- outcomes, crashes, retries, cancellations, prunings of a row, delay warnings), in which each delay
-- warning is written while the row is still as its worker recorded it, the due index holds a message
-- at a place exactly if the message is stored, is not over, and the place is its own: the end of the
-- claim while it is delivered, the next attempt otherwise.
pub due_index_exact :
    {w : World} (r : Reach start w)
    → IsCalm r
    → (t id : ℕ) → is_due w.spool t id ≡ expects (row w.spool id) t
due_index_exact r calm t id = (Reach-Inv r calm).indexed.exact t id
