-- ===== src/Acl/Rights.antt =====
-- Which rights the strings of `internal/acl/acl.go` grant after `Normalize`.
use mailezine.Prelude.{
  ==_refl, ap, ◌∙◌, sym, subst, ℕ, suc, ◌+◌, ◌≡◌, refl, Bool, true, false, [], ◌∷◌, Option, none,
  some, if◌then◌else◌, ◌==◌, ◌||◌, arith, Option-cases, Bool-cases, inl, inr, ap,
}
use mailezine.Bytes.{Bytes}
use mailezine.Acl.{canonical, has, index_rune, later, set_present, mark, collect, normalize}

-- No rune twice.
abbrev IsDistinct : Bytes → Type 0
IsDistinct [] = Unit
IsDistinct (c ∷ cs) = (index_rune cs c ≡ none) × IsDistinct cs

abbrev at : (ℕ → Bool) → ℕ → Option ℕ → Bool
at present i none = false
at present i (some k) = present (i + k)

at-later :
    (present : ℕ → Bool) (i : ℕ) (o : Option ℕ) → at present i (later o) ≡ at present (suc i) o
at-later present i none = refl
at-later present i (some k) = ap present (omega arith)

has_first :
    (present : ℕ → Bool) (i c : ℕ) (rest : Bytes) (r : ℕ) (o : Option ℕ)
    → (c == r) ≡ true
    → has rest r ≡ false
    → has (if present i then c ∷ rest else rest) r ≡ at present i (if c == r then some 0 else o)
unfolding has
has_first present i c rest r o same h = rw same (elim (Bool-cases (present i)) [
  | inl on ↦ rw (on, same) (sym (ap present (omega arith) ∙ on))
  | inr off ↦ rw (off, h) (sym (ap present (omega arith) ∙ off))
])

has_other :
    (b : Bool) (c : ℕ) (rest : Bytes) (r : ℕ)
    → (c == r) ≡ false
    → has (if b then c ∷ rest else rest) r ≡ has rest r
unfolding has
has_other true c rest r apart = rw apart
has_other false c rest r apart = refl

index_step :
    (c : ℕ) (cs : Bytes) (r q k : ℕ)
    → index_rune (c ∷ cs) r ≡ some k
    → index_rune (c ∷ cs) q ≡ some k
    → ((j : ℕ) → index_rune cs r ≡ some j → index_rune cs q ≡ some j → r ≡ q)
    → r ≡ q
unfolding index_rune
index_step c cs r q k h g ih = elim (Option-cases (index_rune cs r)) [
  | inl a ↦ elim (Option-cases (index_rune cs q)) [
    | inl b ↦ ground (arith, h, g, a, b)
    | inr (j, b) ↦ ground (arith, h, g, a, b)
  ]
  | inr (i, a) ↦ elim (Option-cases (index_rune cs q)) [
    | inl b ↦ ground (arith, h, g, a, b)
    | inr (j, b) ↦ ground (arith, h, g, a, b, ih i, ih j)
  ]
]

has-collect :
    (present : ℕ → Bool) (i : ℕ) (cs : Bytes) (r : ℕ)
    → IsDistinct cs
    → has (collect present i cs) r ≡ at present i (index_rune cs r)
unfolding has collect index_rune
has-collect present i [] r d = refl
has-collect present i (c ∷ cs) r d = elim (Bool-cases (c == r)) [
  | inl same ↦
      let eq : c ≡ r = ground (arith, same) in
      let once : index_rune cs r ≡ none = subst (λ q. index_rune cs q ≡ none) eq d.0 in
      let none_left : has (collect present (suc i) cs) r ≡ false =
        has-collect present (suc i) cs r d.1 ∙ ap (at present (suc i)) once in
      has_first present i c (collect present (suc i) cs) r (later (index_rune cs r)) same none_left
  | inr apart ↦
      let rest = has-collect present (suc i) cs r d.1 in
      let moved = at-later present i (index_rune cs r) in
      rw (apart, moved) (has_other (present i) c (collect present (suc i) cs) r apart ∙ rest)
]

index_injective :
    (cs : Bytes) (r q k : ℕ) → index_rune cs r ≡ some k → index_rune cs q ≡ some k → r ≡ q
unfolding index_rune
index_injective [] r q k h g = absurd (cc h)
index_injective (c ∷ cs) r q k h g = index_step c cs r q k h g (index_injective cs r q)

index_of_same :
    (x r i k : ℕ)
    → (x == r) ≡ true
    → index_rune canonical x ≡ some i
    → index_rune canonical r ≡ some k
    → i ≡ k
index_of_same x r i k same e g =
    let eq : x ≡ r = ground (arith, same) in
    let moved : index_rune canonical r ≡ some i =
      subst (λ y. index_rune canonical y ≡ some i) eq e in
    cc (moved, g)

unknown_apart :
    (x r i : ℕ) → index_rune canonical x ≡ some i → index_rune canonical r ≡ none → (x == r) ≡ false
unknown_apart x r i e g = elim (Bool-cases (x == r)) [
  | inl same ↦
      let eq : x ≡ r = ground (arith, same) in
      let moved : index_rune canonical r ≡ some i =
        subst (λ y. index_rune canonical y ≡ some i) eq e in
      absurd (cc (moved, g))
  | inr apart ↦ apart
]

known_apart :
    (x r i k : ℕ)
    → (x == r) ≡ false
    → index_rune canonical x ≡ some i
    → index_rune canonical r ≡ some k
    → (i == k) ≡ false
known_apart x r i k apart e g = elim (Bool-cases (i == k)) [
  | inl same ↦
      let eq : i ≡ k = ground (arith, same) in
      let moved : index_rune canonical x ≡ some k =
        subst (λ j. index_rune canonical x ≡ some j) eq e in
      let alike : x ≡ r = index_injective canonical x r k moved g in ground (arith, apart, alike)
  | inr other ↦ other
]

or_true : (b : Bool) → (b || true) ≡ true
or_true true = refl
or_true false = refl

mark_known :
    (s : Bytes) (p q : ℕ → Bool) (r k : ℕ)
    → mark p s ≡ some q
    → index_rune canonical r ≡ some k
    → q k ≡ (p k || has s r)
unfolding mark has
mark_known [] p q r k h g = ground (arith, h)
mark_known (x ∷ xs) p q r k h g = elim (Option-cases (index_rune canonical x)) [
  | inl unknown ↦ absurd (cc (rw (unknown, mark) at h))
  | inr (idx, e) ↦
      let go = mark_known xs (set_present p idx) q r k (rw (e, mark) at h) g in
      elim (Bool-cases (x == r)) [
        | inl same ↦
            let place : idx ≡ k = index_of_same x r idx k same e g in
            go ∙ rw (same, place, ==_refl k) (sym (or_true (p k)))
        | inr apart ↦
            let elsewhere : (idx == k) ≡ false = known_apart x r idx k apart e g in
            go ∙ rw (elsewhere, apart)
      ]
]

mark_unknown :
    (s : Bytes) (p q : ℕ → Bool) (r : ℕ)
    → mark p s ≡ some q
    → index_rune canonical r ≡ none
    → has s r ≡ false
unfolding mark has
mark_unknown [] p q r h g = refl
mark_unknown (x ∷ xs) p q r h g = elim (Option-cases (index_rune canonical x)) [
  | inl unknown ↦ absurd (cc (rw (unknown, mark) at h))
  | inr (idx, e) ↦
      let rest = mark_unknown xs (set_present p idx) q r (rw (e, mark) at h) g in
      let apart : (x == r) ≡ false = unknown_apart x r idx e g in rw (apart, rest) refl
]

canonical-IsDistinct : IsDistinct canonical
unfolding index_rune
canonical-IsDistinct = (
  refl,
  (
    refl,
    (refl, (refl, (refl, (refl, (refl, (refl, (refl, (refl, (refl, (refl, (refl, tt))))))))))),
  ),
)

-- A string that `Normalize` accepts and its result grant the same rights.
pub has-normalize : (s t : Bytes) → normalize s ≡ some t → (r : ℕ) → has t r ≡ has s r
unfolding normalize
has-normalize s t h r = elim (Option-cases (mark (λ i. false) s)) [
  | inl bad ↦ absurd (cc (rw (bad) at h))
  | inr (q, e) ↦
      let out : collect q 0 canonical ≡ t = ground (arith, rw e at h) in
      let seen : has (collect q 0 canonical) r ≡ at q 0 (index_rune canonical r) =
        has-collect q 0 canonical r canonical-IsDistinct in
      elim (Option-cases (index_rune canonical r)) [
        | inl unknown ↦
            sym (ap (λ l. has l r) out)
            ∙ seen
            ∙ rw (unknown, mark_unknown s (λ i. false) q r e unknown)
        | inr (k, known) ↦
            sym (ap (λ l. has l r) out)
            ∙ seen
            ∙ rw known (ap q (omega arith) ∙ mark_known s (λ i. false) q r k e known)
      ]
]
