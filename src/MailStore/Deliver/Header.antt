-- ===== src/MailStore/Deliver/Header.antt =====
-- The header block that a delivery keeps (`internal/mailstore/kv.go`, `headerBlock`).
use mailezine.Prelude.{
  ℕ, ◌+◌, ◌≤◌, ◌≡◌, refl, ◌∙◌, ap, sym, true, [], ◌∷◌, ◌++◌, Option, none, some, arith, length,
  take, drop, take-append, length-append, Bool-cases, inl, inr, ◌⊎◌, suc, zero,
}
use mathlib.Core.List.{append_assoc}
use mailezine.Bytes.{prefix_rest, Bytes, has_prefix}
use mailezine.MailStore.Deliver.{
  crlf_line, cut_at, header_block, index_from, lf_line, max_stored_header_bytes, or_cut,
}

-- The place that a search finds: the text up to it, and the separator there.
abbrev IsFound : Bytes → ℕ → Bytes → Option ℕ → Type 0
IsFound sep i b none = Unit
IsFound sep i b (some j) =
    (pre : Bytes) × (post : Bytes) × (b ≡ pre ++ (sep ++ post)) × (j ≡ i + length pre)

IsFound-here :
    (sep : Bytes) (i : ℕ) (b : Bytes) → has_prefix sep b ≡ true → IsFound sep i b (some i)
IsFound-here sep i b h = ([], drop (length sep) b, prefix_rest sep b h, omega arith)

IsFound-later :
    (sep : Bytes) (i c : ℕ) (b : Bytes) (o : Option ℕ)
    → IsFound sep (i + 1) b o
    → IsFound sep i (c ∷ b) o
IsFound-later sep i c b none h = tt
IsFound-later sep i c b (some j) (pre, post, e, at) = (c ∷ pre, post, ap (◌∷◌ c) e, omega arith)

index_from-IsFound : (sep : Bytes) (i : ℕ) (b : Bytes) → IsFound sep i b (index_from sep i b)
unfolding index_from
index_from-IsFound sep i [] = elim (Bool-cases (has_prefix sep [])) [
  | inl here ↦ rw (here, index_from) (IsFound-here sep i [] here)
  | inr gone ↦ rw (gone, index_from) tt
]
index_from-IsFound sep i (c ∷ b) = elim (Bool-cases (has_prefix sep (c ∷ b))) [
  | inl here ↦ rw (here, index_from) (IsFound-here sep i (c ∷ b) here)
  | inr later ↦
      rw (later, index_from)
        (IsFound-later sep i c b (index_from sep (i + 1) b) (index_from-IsFound sep (i + 1) b))
]

take-drop : (n : ℕ) (b : Bytes) → b ≡ take n b ++ drop n b
take-drop zero b = refl
take-drop (suc n) [] = refl
take-drop (suc n) (c ∷ b) = ap (◌∷◌ c) (take-drop n b)

length-take-le : (n : ℕ) (b : Bytes) → length (take n b) ≤ n
length-take-le zero b = omega arith
length-take-le (suc n) [] = omega arith
length-take-le (suc n) (c ∷ b) = omega (arith, length-take-le n b)

-- A cut: some text that ends with the separator, and what follows it.
abbrev IsCut : Bytes → Bytes → Option Bytes → Type 0
IsCut sep b none = Unit
IsCut sep b (some h) = (pre : Bytes) × (post : Bytes) × (h ≡ pre ++ sep) × (b ≡ h ++ post)

cut_at-IsCut :
    (sep b : Bytes) (o : Option ℕ) → IsFound sep 0 b o → IsCut sep b (cut_at (length sep) b o)
cut_at-IsCut sep b none h = tt
cut_at-IsCut sep b (some j) (pre, post, e, at) =
    let split : b ≡ (pre ++ sep) ++ post = e ∙ sym (append_assoc pre sep post) in
    let cut : take (j + length sep) b ≡ pre ++ sep =
      ap (take (j + length sep)) split
      ∙ take-append (j + length sep) (pre ++ sep) post (omega (arith, length-append pre sep)) in
    (pre, post, cut, split ∙ ap (λ l. l ++ post) (sym cut))

-- A header block is the beginning of the message, up to an empty line, and within the bound.
abbrev pub IsHeader : Bytes → Option Bytes → Type 0
IsHeader b none = Unit
IsHeader b (some h) =
    (pre : Bytes) × (post : Bytes) × (b ≡ h ++ post)
    × (length h ≤ max_stored_header_bytes)
    × ((h ≡ pre ++ crlf_line) ⊎ (h ≡ pre ++ lf_line))

IsHeader-of_cut :
    (b h pre post : Bytes)
    → (h ≡ pre ++ crlf_line) ⊎ (h ≡ pre ++ lf_line)
    → take max_stored_header_bytes b ≡ h ++ post
    → IsHeader b (some h)
IsHeader-of_cut b h pre post ends e = (
  pre,
  post ++ drop max_stored_header_bytes b,
  take-drop max_stored_header_bytes b
      ∙ ap (λ l. l ++ drop max_stored_header_bytes b) e
      ∙ append_assoc h post (drop max_stored_header_bytes b),
  omega (arith, length-take-le max_stored_header_bytes b, length-append h post, ap length e),
  ends,
)

or_cut-IsHeader :
    (b : Bytes) (o : Option Bytes)
    → IsCut crlf_line (take max_stored_header_bytes b) o
    → IsHeader b (or_cut o (take max_stored_header_bytes b))
or_cut-IsHeader b (some h) (pre, post, ends, e) = IsHeader-of_cut b h pre post (inl ends) e
or_cut-IsHeader b none h =
    let head = take max_stored_header_bytes b in
    by_lf (cut_at 2 head (index_from lf_line 0 head))
      (cut_at-IsCut lf_line head (index_from lf_line 0 head) (index_from-IsFound lf_line 0 head))
  where
    by_lf : (o : Option Bytes) → IsCut lf_line (take max_stored_header_bytes b) o → IsHeader b o
    by_lf none h = tt
    by_lf (some h) (pre, post, ends, e) = IsHeader-of_cut b h pre post (inr ends) e

-- The header block that is kept with a message is the beginning of it, at most 64 KiB long, and
-- ends with an empty line.
pub header_block-IsHeader : (b : Bytes) → IsHeader b (header_block b)
unfolding header_block
header_block-IsHeader b =
    let head = take max_stored_header_bytes b in
    or_cut-IsHeader b (cut_at 4 head (index_from crlf_line 0 head)) (
      cut_at-IsCut crlf_line head (index_from crlf_line 0 head)
        (index_from-IsFound crlf_line 0 head))
