-- ===== src/MailStore/Flags/Text.antt =====
-- Flags are read back from their text (`splitCSV` and `splitFlags` of `internal/mailstore`).
use mathlib.Core.List.{append_assoc, append-nil}
use mailezine.Prelude.{
  ℕ, ◌≡◌, refl, ◌∙◌, ap, Bool, false, List, [], ◌∷◌, ◌++◌, ◌==◌, ◌||◌, All, arith, length, ◌<◌,
}
use mailezine.Bytes.{Bytes}
use mailezine.Store.Email.Remove.{has_list_token, has_token_from, equal_fold}
use mailezine.MailStore.Flags.{join_csv, split_from, split_csv}

-- A flag that a text can hold: some bytes, none of them a comma.
abbrev pub IsFlag : Bytes → Type 0
IsFlag f = (0 < length f) × All (λ c. (c == b',') ≡ false) f

split_from-piece :
    (piece f : Bytes) → All (λ c. (c == b',') ≡ false) f → split_from piece f ≡ (piece ++ f) ∷ []
unfolding split_from
split_from-piece piece [] h = simp append-nil
split_from-piece piece (c ∷ f) h =
    rw (h.0, split_from)
      (split_from-piece (piece ++ c ∷ []) f h.1 ∙ ap (λ x. x ∷ []) (append_assoc piece (c ∷ []) f))

split_from-comma :
    (piece f rest : Bytes)
    → All (λ c. (c == b',') ≡ false) f
    → split_from piece (f ++ b',' ∷ rest) ≡ (piece ++ f) ∷ split_from [] rest
unfolding split_from
split_from-comma piece [] rest h = simp append-nil
split_from-comma piece (c ∷ f) rest h =
    rw (h.0, split_from)
      (split_from-comma (piece ++ c ∷ []) f rest h.1
        ∙ ap (λ x. x ∷ split_from [] rest) (append_assoc piece (c ∷ []) f))

split_from-join_csv :
    (f : Bytes) (flags : List Bytes)
    → All (λ c. (c == b',') ≡ false) f
    → All IsFlag flags
    → split_from [] (join_csv (f ∷ flags)) ≡ f ∷ flags
unfolding join_csv
split_from-join_csv f [] h a = split_from-piece [] f h
split_from-join_csv f (g ∷ flags) h a =
    split_from-comma [] f (join_csv (g ∷ flags)) h
    ∙ ap (◌∷◌ f) (split_from-join_csv g flags a.0.1 a.1)

-- Flags without commas, none of them empty, are read back from their text as they were.
pub split_csv-join_csv :
    (flags : List Bytes) → All IsFlag flags → split_csv (join_csv flags) ≡ flags
unfolding split_csv join_csv
split_csv-join_csv [] h = refl
split_csv-join_csv ([] ∷ flags) h = absurd (omega arith)
split_csv-join_csv ((c ∷ f) ∷ []) h = split_from-join_csv (c ∷ f) [] h.0.1 h.1
split_csv-join_csv ((c ∷ f) ∷ g ∷ flags) h = split_from-join_csv (c ∷ f) (g ∷ flags) h.0.1 h.1

-- One of the flags is the token, in any case of its letters.
abbrev pub any_fold : List Bytes → Bytes → Bool
any_fold [] want = false
any_fold (f ∷ flags) want = equal_fold f want || any_fold flags want

token_piece :
    (tok f want : Bytes)
    → All (λ c. (c == b',') ≡ false) f
    → has_token_from tok f want ≡ equal_fold (tok ++ f) want
unfolding has_token_from
token_piece tok [] want h = rw append-nil refl
token_piece tok (c ∷ f) want h =
    rw (h.0, has_token_from)
      (token_piece (tok ++ c ∷ []) f want h.1
        ∙ ap (λ x. equal_fold x want) (append_assoc tok (c ∷ []) f))

token_comma :
    (tok f : Bytes) (d : ℕ) (rest want : Bytes)
    → All (λ c. (c == b',') ≡ false) f
    → has_token_from tok (f ++ b',' ∷ d ∷ rest) want
      ≡ (equal_fold (tok ++ f) want || has_token_from [] (d ∷ rest) want)
unfolding has_token_from
token_comma tok [] d rest want h = rw append-nil refl
token_comma tok (c ∷ f) d rest want h =
    rw (h.0, has_token_from)
      (token_comma (tok ++ c ∷ []) f d rest want h.1
        ∙ ap (λ x. equal_fold x want || has_token_from [] (d ∷ rest) want)
            (append_assoc tok (c ∷ []) f))

token_join :
    (f : Bytes) (flags : List Bytes) (want : Bytes)
    → All (λ c. (c == b',') ≡ false) f
    → All IsFlag flags
    → has_token_from [] (join_csv (f ∷ flags)) want ≡ any_fold (f ∷ flags) want
unfolding join_csv
token_join f [] want h a = token_piece [] f want h ∙ ground arith
token_join f ([] ∷ flags) want h a = absurd (omega (arith, a.0.0))
token_join f ((d ∷ g) ∷ []) want h a =
    token_comma [] f d g want h
    ∙ ap (λ x. equal_fold f want || x) (token_join (d ∷ g) [] want a.0.1 a.1)
token_join f ((d ∷ g) ∷ k ∷ flags) want h a =
    token_comma [] f d (g ++ b',' ∷ join_csv (k ∷ flags)) want h
    ∙ ap (λ x. equal_fold f want || x) (token_join (d ∷ g) (k ∷ flags) want a.0.1 a.1)

-- The test that a removal makes on the text of the flags finds the flags that the mail store joined
-- into it, whatever the case of their letters: flags without commas, none of them empty.
pub has_list_token-join_csv :
    (flags : List Bytes) (want : Bytes)
    → All IsFlag flags
    → has_list_token (join_csv flags) want ≡ any_fold flags want
unfolding has_list_token join_csv
has_list_token-join_csv [] want h = refl
has_list_token-join_csv ([] ∷ flags) want h = absurd (omega (arith, h.0.0))
has_list_token-join_csv ((c ∷ f) ∷ []) want h = token_join (c ∷ f) [] want h.0.1 h.1
has_list_token-join_csv ((c ∷ f) ∷ g ∷ flags) want h = token_join (c ∷ f) (g ∷ flags) want h.0.1 h.1
