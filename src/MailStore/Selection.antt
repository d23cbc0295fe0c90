-- ===== src/MailStore/Selection.antt =====
-- The messages that an IMAP command names (`internal/imap/session.go`, `Expunge` and `resolveUIDs`)
-- and what the mail store makes of an empty choice (`internal/mailstore/kv_mailbox.go`). What a set of
-- numbers matches is a parameter.
use mailezine.Prelude.{
  ◌<◌, sym, ℕ, ◌+◌, ◌≡◌, refl, ◌∙◌, ap, Bool, true, false, List, [], ◌∷◌, if◌then◌else◌, ◌&&◌, ◌||◌,
  ◌==◌, arith, All, length, ==_iff, Bool-cases, inl, inr,
}
use mailezine.Bytes.{Bytes}
use mailezine.Store.Email.Remove.{equal_fold}
use mailezine.MailStore.Flags.{flag_deleted, has_flag}
use mailezine.MailStore.Message.{Email, in_uids, is_listed, select_targets}

-- A message of the session's snapshot.
pub record Seen : Type 0 where
  pub uid : ℕ
  pub flags : List Bytes

-- `mailstore.HasFlag`
abbrev pub has_flag_fold : List Bytes → Bytes → Bool
has_flag_fold [] want = false
has_flag_fold (f ∷ flags) want = equal_fold f want || has_flag_fold flags want

-- The UIDs that UID EXPUNGE hands to the store: in the set and marked, in the snapshot.
unfoldable pub uid_expunge_list : (ℕ → Bool) → List Seen → List ℕ
uid_expunge_list contains [] = []
uid_expunge_list contains (m ∷ before) =
    let rest = uid_expunge_list contains before in
    if contains m.uid && has_flag_fold m.flags flag_deleted then m.uid ∷ rest else rest

-- `numMatches` of a message's number and UID, with those of the last message.
unfoldable pub resolve_from : (ℕ → ℕ → Bool) → ℕ → List Seen → List ℕ
resolve_from matches seq [] = []
resolve_from matches seq (m ∷ msgs) =
    let rest = resolve_from matches (seq + 1) msgs in
    if matches seq m.uid then m.uid ∷ rest else rest

-- `resolveUIDs`
abbrev pub resolve_uids : (ℕ → ℕ → Bool) → List Seen → List ℕ
resolve_uids matches msgs = resolve_from matches 1 msgs

-- The messages that `Copy` and `Move` take.
unfoldable pub select_listed : List ℕ → List Email → List Email
select_listed uids [] = []
select_listed uids (m ∷ emails) =
    let rest = select_listed uids emails in if is_listed uids m then m ∷ rest else rest

-- Every UID on the list is in the set.
in_uids-uid_expunge_list :
    (contains : ℕ → Bool) (before : List Seen) (uid : ℕ)
    → in_uids (uid_expunge_list contains before) uid ≡ true
    → contains uid ≡ true
unfolding uid_expunge_list
in_uids-uid_expunge_list contains [] uid h = cc h
in_uids-uid_expunge_list contains (m ∷ before) uid h =
    member (contains m.uid) (has_flag_fold m.flags flag_deleted) refl
      (in_uids-uid_expunge_list contains before uid) h
  where
    member :
        (b c : Bool)
        → contains m.uid ≡ b
        → (in_uids (uid_expunge_list contains before) uid ≡ true → contains uid ≡ true)
        → in_uids
            (if b && c
              then m.uid ∷ uid_expunge_list contains before
              else uid_expunge_list contains before)
            uid
          ≡ true
        → contains uid ≡ true
    member true true e rec g = elim (Bool-cases (m.uid == uid)) [
      | inl same ↦ rw (← (==_iff m.uid uid).0 same) e
      | inr other ↦
          rec (ap (λ b. b || in_uids (uid_expunge_list contains before) uid) (sym other) ∙ g)
    ]
    member true false e rec g = rec g
    member false c e rec g = rec g

select_targets_in :
    (P : ℕ → Type 0) (u : ℕ) (uids : List ℕ) (emails : List Email)
    → ((uid : ℕ) → in_uids (u ∷ uids) uid ≡ true → P uid)
    → All (λ m. P m.uid) (select_targets (u ∷ uids) true emails)
unfolding select_targets
select_targets_in P u uids [] h = tt
select_targets_in P u uids (m ∷ emails) h =
    kept (in_uids (u ∷ uids) m.uid) refl (select_targets_in P u uids emails h)
  where
    kept :
        (b : Bool)
        → in_uids (u ∷ uids) m.uid ≡ b
        → All (λ t. P t.uid) (select_targets (u ∷ uids) true emails)
        → All
            (λ t. P t.uid)
            (if b
              then m ∷ select_targets (u ∷ uids) true emails
              else select_targets (u ∷ uids) true emails)
    kept true e rest = (h m.uid e, rest)
    kept false e rest = rest

-- UID EXPUNGE, where its set names a marked message of the snapshot, tries to remove messages of
-- the set only.
pub uid_expunge_in_set :
    (contains : ℕ → Bool) (before : List Seen) (emails : List Email)
    → 0 < length (uid_expunge_list contains before)
    → All
        (λ m. contains m.uid ≡ true)
        (select_targets (uid_expunge_list contains before) true emails)
uid_expunge_in_set contains before emails some_uid =
    nonempty (uid_expunge_list contains before) some_uid (in_uids-uid_expunge_list contains before)
  where
    nonempty :
        (uids : List ℕ)
        → 0 < length uids
        → ((uid : ℕ) → in_uids uids uid ≡ true → contains uid ≡ true)
        → All (λ m. contains m.uid ≡ true) (select_targets uids true emails)
    nonempty [] h g = absurd (omega arith)
    nonempty (u ∷ uids) h g = select_targets_in (λ uid. contains uid ≡ true) u uids emails g

-- The marked messages.
unfoldable pub select_marked : List Email → List Email
select_marked [] = []
select_marked (m ∷ emails) =
    let rest = select_marked emails in if has_flag m.flags flag_deleted then m ∷ rest else rest

uid_expunge_list_empty :
    (contains : ℕ → Bool) (before : List Seen)
    → All (λ m. (contains m.uid && has_flag_fold m.flags flag_deleted) ≡ false) before
    → uid_expunge_list contains before ≡ []
unfolding uid_expunge_list
uid_expunge_list_empty contains [] h = refl
uid_expunge_list_empty contains (m ∷ before) h = rw h.0 (uid_expunge_list_empty contains before h.1)

select_targets_all : (emails : List Email) → select_targets [] true emails ≡ select_marked emails
unfolding select_targets select_marked
select_targets_all [] = refl
select_targets_all (m ∷ emails) =
    ap (λ l. if has_flag m.flags flag_deleted then m ∷ l else l) (select_targets_all emails)

-- UID EXPUNGE whose set names no marked message of the snapshot tries to remove every marked
-- message of the mailbox, as EXPUNGE does, whatever its set is.
pub uid_expunge_unmatched :
    (contains : ℕ → Bool) (before : List Seen) (emails : List Email)
    → All (λ m. (contains m.uid && has_flag_fold m.flags flag_deleted) ≡ false) before
    → select_targets (uid_expunge_list contains before) true emails ≡ select_marked emails
uid_expunge_unmatched contains before emails h =
    ap (λ uids. select_targets uids true emails) (uid_expunge_list_empty contains before h)
    ∙ select_targets_all emails

-- No message of a list matches, its number in the session counted from the given one.
abbrev pub IsUnmatched : (ℕ → ℕ → Bool) → ℕ → List Seen → Type 0
IsUnmatched matches seq [] = Unit
IsUnmatched matches seq (m ∷ msgs) =
    (matches seq m.uid ≡ false) × IsUnmatched matches (seq + 1) msgs

resolve_from_empty :
    (matches : ℕ → ℕ → Bool) (seq : ℕ) (msgs : List Seen)
    → IsUnmatched matches seq msgs
    → resolve_from matches seq msgs ≡ []
unfolding resolve_from
resolve_from_empty matches seq [] h = refl
resolve_from_empty matches seq (m ∷ msgs) h = rw h.0 (resolve_from_empty matches (seq + 1) msgs h.1)

select_listed_all : (emails : List Email) → select_listed [] emails ≡ emails
unfolding select_listed
select_listed_all [] = refl
select_listed_all (m ∷ emails) = ap (◌∷◌ m) (select_listed_all emails)

-- COPY and MOVE whose set, of sequence numbers or of UIDs, matches no message of the snapshot take
-- every message of the mailbox.
pub select_listed-resolve_uids_unmatched :
    (matches : ℕ → ℕ → Bool) (msgs : List Seen) (emails : List Email)
    → IsUnmatched matches 1 msgs
    → select_listed (resolve_uids matches msgs) emails ≡ emails
select_listed-resolve_uids_unmatched matches msgs emails h =
    ap (λ uids. select_listed uids emails) (resolve_from_empty matches 1 msgs h)
    ∙ select_listed_all emails
