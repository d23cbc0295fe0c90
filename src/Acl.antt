-- ===== src/Acl.antt =====
-- `internal/acl/acl.go`: the rights of RFC 4314. A Go string is the list of its runes.
pub mod Rights
pub mod Modification
use mailezine.Prelude.{
  ℕ, zero, suc, Bool, true, false, List, [], ◌∷◌, ◌++◌, Option, none, some, if◌then◌else◌, leb,
  ◌==◌, ◌||◌, not,
}
use mailezine.Bytes.{Bytes}
use mailezine.Store.Key.{codes}

-- `Canonical`
abbrev pub canonical : Bytes
canonical = codes "lrswipkxtecda"

-- `strings.ContainsRune`
unfoldable pub has : Bytes → ℕ → Bool
has [] r = false
has (c ∷ cs) r = if c == r then true else has cs r

abbrev is_barred : ℕ → Bool
is_barred r = leb r 32 || r == 0x7f || has (codes "(){%*\"]\\") r

abbrev all_allowed : Bytes → Bool
all_allowed [] = true
all_allowed (r ∷ rs) = if is_barred r then false else all_allowed rs

-- `ValidateIdentifier`: whether it returns no error.
unfoldable pub validate_identifier : Bytes → Bool
unfolding has
validate_identifier [] = false
validate_identifier (r ∷ rs) = all_allowed (r ∷ rs)

abbrev later : Option ℕ → Option ℕ
later none = none
later (some i) = some (suc i)

-- `strings.IndexRune`
unfoldable pub index_rune : Bytes → ℕ → Option ℕ
index_rune [] r = none
index_rune (c ∷ cs) r = let rest = index_rune cs r in if c == r then some 0 else later rest

-- `present[idx] = true`
abbrev pub set_present : (ℕ → Bool) → ℕ → ℕ → Bool
set_present present idx i = if idx == i then true else present i

-- The first loop of `Normalize`; it stops at an unknown right.
unfoldable pub mark : (ℕ → Bool) → Bytes → Option (ℕ → Bool)
unfolding index_rune
mark present [] = some present
mark present (r ∷ rs) = elim (index_rune canonical r) [
  | none ↦ none
  | some idx ↦ mark (set_present present idx) rs
]

-- The second loop of `Normalize`, from position `i` of the canonical string.
unfoldable pub collect : (ℕ → Bool) → ℕ → Bytes → Bytes
collect present i [] = []
collect present i (c ∷ cs) =
    let rest = collect present (suc i) cs in if present i then c ∷ rest else rest

abbrev pub collected : Option (ℕ → Bool) → Option Bytes
collected none = none
collected (some present) = some (collect present 0 canonical)

-- `Normalize`; no result is an error.
unfoldable pub normalize : Bytes → Option Bytes
unfolding mark collect
normalize rights = collected (mark (λ i. false) rights)

-- `strings.ReplaceAll(cur, string(r), "")`
unfoldable pub replace_all : Bytes → ℕ → Bytes
replace_all [] r = []
replace_all (c ∷ cs) r = let rest = replace_all cs r in if c == r then rest else c ∷ rest

unfoldable pub remove_all : Bytes → Bytes → Bytes
unfolding replace_all
remove_all cur [] = cur
remove_all cur (r ∷ rs) = remove_all (replace_all cur r) rs

abbrev added : Option Bytes → Option Bytes → Option Bytes
added none cur = none
added (some add) none = none
added (some add) (some cur) = normalize (cur ++ add)

abbrev removed : Option Bytes → Option Bytes → Option Bytes
removed none cur = none
removed (some remove) none = none
removed (some remove) (some cur) = some (remove_all cur remove)

-- `ApplyModification`
unfoldable pub apply_modification : Bytes → Bytes → Option Bytes
unfolding normalize remove_all
apply_modification current [] = some []
apply_modification current (m ∷ rights) =
    if m == b'+'
    then added (normalize rights) (normalize current)
    else if m == b'-'
    then removed (normalize rights) (normalize current)
    else normalize (m ∷ rights)
