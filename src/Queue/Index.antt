-- ===== src/Queue/Index.antt =====
-- The due index of `internal/queue/queue.go` is exact: it holds each waiting or active message at
-- the one place where the scheduler must look again, and nothing else.
pub mod Claiming
pub mod Administration
pub mod Recording
pub mod Warning
use mailezine.Prelude.{
  refl, ℕ, ◌≡◌, Option, none, some, Bool, true, false, if◌then◌else◌, ◌==◌, arith, [], ◌∷◌, ◌≤◌,
}
use mailezine.Queue.Message.{Message, unix, is_terminal, due_pos, is_active}
use mailezine.Queue.Spool.{
  Spool, put_row, delete_row, put_due, delete_due, row, is_due, commit, apply, put_counter,
}
use mailezine.Queue.Spool.Reads.{row-apply, is_due-apply}

-- Whether the index has to hold the message of a row at a place.
abbrev pub expects : Option Message → ℕ → Bool
expects none t = false
expects (some m) t = if is_terminal m.state then false else unix (due_pos m) == t

pub record IsIndexed (s : Spool) : Type 0 where
  pub exact : (t id : ℕ) → is_due s t id ≡ expects (row s id) t
  pub keyed : (id : ℕ) (m : Message) → row s id ≡ some m → m.id ≡ id
  pub numbered : (id : ℕ) (m : Message) → row s id ≡ some m → id ≤ s.counter

-- `s'` holds `r` at one row, with the index entries that `r` calls for, and is `s` elsewhere.
pub record Replaces (s s' : Spool) (id : ℕ) (r : Option Message) : Type 0 where
  pub rows : (j : ℕ) → row s' j ≡ (if id == j then r else row s j)
  pub dues : (t j : ℕ) → is_due s' t j ≡ (if id == j then expects r t else is_due s t j)
  pub counted : s'.counter ≡ s.counter

pub Replaces-IsIndexed :
    (s s' : Spool) (id : ℕ) (r : Option Message)
    → Replaces s s' id r
    → ((m : Message) → r ≡ some m → (m.id ≡ id) × (id ≤ s.counter))
    → IsIndexed s
    → IsIndexed s'
Replaces-IsIndexed s s' id r c k x = record {
  exact = λ t j. ground (arith, c.rows j, c.dues t j, x.exact t j);
  keyed = λ j m e. ground (arith, c.rows j, k m, x.keyed j m);
  numbered = λ j m e. rw c.counted (ground (arith, c.rows j, k m, x.numbered j m));
}

-- An active message of `s'` stood in `s`: no claim was made or changed.
abbrev pub Quiet : Spool → Spool → Type 0
Quiet s s' =
    (j : ℕ) (cur : Message) → row s' j ≡ some cur → is_active cur.state ≡ true → row s j ≡ some cur

-- No row appears, and the counter does not go back.
pub record Stays (s s' : Spool) : Type 0 where
  pub absent : (j : ℕ) → row s j ≡ none → row s' j ≡ none
  pub counted : s.counter ≤ s'.counter

pub Stays-refl : (s : Spool) → Stays s s
Stays-refl s = record { absent = λ j e. e; counted = omega arith }

pub Replaces-Stays :
    (s s' : Spool) (id : ℕ) (r : Option Message)
    → Replaces s s' id r
    → (row s id ≡ none → r ≡ none)
    → Stays s s'
Replaces-Stays s s' id r c h = record {
  absent = λ j e. ground (arith, c.rows j, h, e);
  counted = omega (arith, c.counted);
}

-- The index stays exact, no claim is made or changed, and no row appears.
pub record Keeps (s s' : Spool) : Type 0 where
  pub indexed : IsIndexed s'
  pub quiet : Quiet s s'
  pub stays : Stays s s'

pub Keeps-refl : (s : Spool) → IsIndexed s → Keeps s s
Keeps-refl s x = record { indexed = x; quiet = λ j cur e h. e; stays = Stays-refl s }

pub Keeps-trans : (s t u : Spool) → Keeps s t → Keeps t u → Keeps s u
Keeps-trans s t u h k = record {
  indexed = k.indexed;
  quiet = λ j cur e a. h.quiet j cur (k.quiet j cur e a) a;
  stays = record {
    absent = λ j e. k.stays.absent j (h.stays.absent j e);
    counted = omega (arith, h.stays.counted, k.stays.counted);
  };
}

pub Replaces-Keeps :
    (s s' : Spool) (id : ℕ) (r : Option Message)
    → Replaces s s' id r
    → ((m : Message) → r ≡ some m → (m.id ≡ id) × (id ≤ s.counter) × (is_active m.state ≡ false))
    → (row s id ≡ none → r ≡ none)
    → IsIndexed s
    → Keeps s s'
Replaces-Keeps s s' id r c k h x = record {
  indexed = Replaces-IsIndexed s s' id r c (λ m e. ((k m e).0, (k m e).1)) x;
  quiet = λ j cur e a. ground (arith, c.rows j, k cur);
  stays = Replaces-Stays s s' id r c h;
}

module _ (s : Spool) (id a : ℕ) (x : IsIndexed s) where
  -- The row is written, and its index entry moves from `a` to the place of the new message.
  pub move-Replaces :
      (m : Message) (b : ℕ)
      → unix (due_pos m) ≡ b
      → is_terminal m.state ≡ false
      → ((t : ℕ) → expects (row s id) t ≡ true → a ≡ t)
      → Replaces s (commit s (put_row id m ∷ delete_due a id ∷ put_due b id ∷ [])) id (some m)
  unfolding commit
  move-Replaces m b place w old = record {
    rows = λ j. simp row-apply;
    counted = refl;
    dues = λ t j. simp is_due-apply (ground (arith, w, place, x.exact t j, old t));
  }

  -- The row is written with a message that is over, and its index entry is dropped.
  pub close-Replaces :
      (m : Message)
      → is_terminal m.state ≡ true
      → ((t : ℕ) → expects (row s id) t ≡ true → a ≡ t)
      → Replaces s (commit s (put_row id m ∷ delete_due a id ∷ [])) id (some m)
  unfolding commit
  close-Replaces m w old = record {
    rows = λ j. simp row-apply;
    counted = refl;
    dues = λ t j. simp is_due-apply (ground (arith, w, x.exact t j, old t));
  }

  -- The row and two places of the index are deleted, one of them the place of its message.
  pub drop-Replaces :
      (b : ℕ)
      → ((t : ℕ) → expects (row s id) t ≡ true → a ≡ t)
      → Replaces s (commit s (delete_row id ∷ delete_due a id ∷ delete_due b id ∷ [])) id none
  unfolding commit
  drop-Replaces b old = record {
    rows = λ j. simp row-apply;
    counted = refl;
    dues = λ t j. simp is_due-apply (ground (arith, x.exact t j, old t));
  }

  pub drop_one-Replaces :
      ((t : ℕ) → expects (row s id) t ≡ true → a ≡ t)
      → Replaces s (commit s (delete_row id ∷ delete_due a id ∷ [])) id none
  unfolding commit
  drop_one-Replaces old = record {
    rows = λ j. simp row-apply;
    counted = refl;
    dues = λ t j. simp is_due-apply (ground (arith, x.exact t j, old t));
  }

  -- A new row and its index entry.
  pub new-Replaces :
      (m : Message)
      → row s id ≡ none
      → is_terminal m.state ≡ false
      → Replaces s (commit s (put_row id m ∷ put_due (unix (due_pos m)) id ∷ [])) id (some m)
  unfolding commit
  new-Replaces m absent w = record {
    rows = λ j. simp row-apply;
    counted = refl;
    dues = λ t j. simp is_due-apply (ground (arith, w, x.exact t j, absent));
  }

  -- Two places of the index of a message that is over are deleted: nothing changes.
  pub heal-Replaces :
      (b : ℕ) (m : Message)
      → row s id ≡ some m
      → is_terminal m.state ≡ true
      → Replaces s (commit s (delete_due a id ∷ delete_due b id ∷ [])) id (some m)
  unfolding commit
  heal-Replaces b m e w = record {
    rows = λ j. simp row-apply (ground (arith, e));
    counted = refl;
    dues = λ t j. simp is_due-apply (ground (arith, w, x.exact t j, e));
  }

-- The message counter goes up.
pub count-IsIndexed :
    (s : Spool) (n : ℕ) → s.counter ≤ n → IsIndexed s → IsIndexed (commit s (put_counter n ∷ []))
unfolding commit apply row is_due
count-IsIndexed s n h x = record {
  exact = λ t j. x.exact t j;
  keyed = λ j m e. x.keyed j m e;
  numbered = λ j m e. omega (arith, x.numbered j m e);
}
