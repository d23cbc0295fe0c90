-- ===== src/Queue/System/Submission.antt =====
-- `Submit` of `internal/queue/queue.go` as steps of a deployment that no other step interrupts.
use mailezine.Prelude.{ℕ, ◌+◌, ◌<◌, ◌^◌, ◌≡◌, refl, List, [], ◌∷◌, Option, some, subst, sym}
use mailezine.Bytes.{Bytes}
use mailezine.Queue.Message.{Config}
use mailezine.Queue.Spool.{commit}
use mailezine.Queue.Admin.{next_id, blob_name, submit, submit_stored}
use mailezine.Queue.System.{World, numbers, submits, Reach, here, next}

-- A submission whose body is stored takes its number and then writes its row.
submit_steps :
    (w : World) (cfg : Config) (from addr : Bytes) (to : List Bytes) (subject body : Bytes)
    (put_blob : Bytes → Bytes → Option ℕ) (size : ℕ)
    → w.spool.counter + 1 < 2 ^ 64
    → put_blob (blob_name (next_id w.spool).0) body ≡ some size
    → Reach w (record w {
      spool = (submit cfg w.now from (addr ∷ to) subject (some body) put_blob w.spool).1;
    })
unfolding submit
submit_steps w cfg from addr to subject body put_blob size room stored =
    subst
      (λ o. Reach w (record w {
        spool =
            (submit_stored cfg w.now from (addr ∷ to) subject (next_id w.spool).0
              (commit w.spool (next_id w.spool).1) o).1;
      }))
      (sym stored)
      (next (next here (numbers room))
        (submits [] (next_id w.spool).0 w.reserved cfg from (addr ∷ to) subject size refl))
