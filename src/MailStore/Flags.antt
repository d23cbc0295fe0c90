-- ===== src/MailStore/Flags.antt =====
-- Flags (`internal/mailstore/kv.go`, `kv_mailbox.go`, `mailstore.go`): a message keeps its system
-- flags and its keywords as two texts with commas.
pub mod Text
use mailezine.Prelude.{
  ℕ, Bool, true, false, not, List, [], ◌∷◌, ◌++◌, if◌then◌else◌, ◌==◌, ◌||◌, ◌&&◌,
}
use mailezine.Bytes.{Bytes, bytes_eq, has_prefix}
use mailezine.Store.Key.{codes}

abbrev pub flag_deleted : Bytes
flag_deleted = 0x5c ∷ codes "Deleted"

abbrev pub flag_seen : Bytes
flag_seen = 0x5c ∷ codes "Seen"

-- `containsFlag`, `Email.HasFlag`
unfoldable pub has_flag : List Bytes → Bytes → Bool
has_flag [] want = false
has_flag (f ∷ flags) want = bytes_eq f want || has_flag flags want

-- `normalizeFlags`
unfoldable pub normalize_flags : List Bytes → Bool → List Bytes
unfolding has_flag
normalize_flags flags seen =
    if seen && not (has_flag flags flag_seen) then flags ++ flag_seen ∷ [] else flags

-- `splitFlags`: the system flags, which begin with a backslash, and the keywords.
abbrev pub put_flag : Bytes → List Bytes × List Bytes → List Bytes × List Bytes
put_flag f (system, keywords) =
    if has_prefix (0x5c ∷ []) f then (f ∷ system, keywords) else (system, f ∷ keywords)

unfoldable pub split_flags : List Bytes → List Bytes × List Bytes
unfolding has_prefix
split_flags [] = ([], [])
split_flags (f ∷ flags) = put_flag f (split_flags flags)

-- `strings.Join(flags, ",")`
unfoldable pub join_csv : List Bytes → Bytes
join_csv [] = []
join_csv (f ∷ []) = f
join_csv (f ∷ g ∷ flags) = f ++ b',' ∷ join_csv (g ∷ flags)

-- `strings.Split(s, ",")`: the pieces, the first of them so far in hand.
unfoldable pub split_from : Bytes → Bytes → List Bytes
split_from piece [] = piece ∷ []
split_from piece (c ∷ b) = elim (c == b',') [
  | true ↦ piece ∷ split_from [] b
  | false ↦ split_from (piece ++ c ∷ []) b
]

-- `splitCSV`
unfoldable pub split_csv : Bytes → List Bytes
unfolding split_from
split_csv [] = []
split_csv (c ∷ b) = split_from [] (c ∷ b)
