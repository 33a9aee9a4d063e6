-- ===== src/ErrorPolicy/Merging.antt =====
-- What the merging of status ranges keeps, and the form that it yields.
use mathlib.Core.List.{reverse, reverse-cons}
use void_switch.Base.{
  ℕ, ◌+◌, max, List, [], ◌∷◌, ◌++◌, Bool, true, false, ◌&&◌, ◌||◌, leb, ◌≡◌, refl, ◌∙◌, ◌≤◌, ◌<◌,
  All, All-append, All-map, any, any-reverse, All-reverse, arith, inl, inr, Bool-cases,
}
use void_switch.Base.Sort.{
  sort_by, by, lex, IsPreorder, any-sort_by, All-sort_by, IsSorted, sort_by-IsSorted, any-sort_by,
  IsSorted, by-IsPreorder, lex-IsPreorder, leb-IsPreorder,
}
use void_switch.ErrorPolicy.Status.{Range, range_key, merge, merge_loop}

abbrev pub within : ℕ → Range → Bool
within c (start, last) = leb start c && leb c last

-- Some range holds the code.
abbrev pub covers : List Range → ℕ → Bool
covers rs c = any (within c) rs

abbrev StartsBy : List Range → List Range → Type 0
StartsBy [] rs = Unit
StartsBy ((s, e) ∷ merged) rs = All (λ r. s ≤ r.0) rs

abbrev Ascending : List Range → Type 0
Ascending [] = Unit
Ascending ((s, e) ∷ rs) = All (λ r. s ≤ r.0) rs × Ascending rs

range_key-IsPreorder : IsPreorder (by (lex leb) range_key)
range_key-IsPreorder = by-IsPreorder (lex leb) range_key (lex-IsPreorder leb leb-IsPreorder)

or_false : (b : Bool) → (b || false) ≡ b
or_false true = refl
or_false false = refl

merge_loop-covers :
    (rs merged : List Range) (c : ℕ)
    → Ascending rs
    → StartsBy merged rs
    → covers (merge_loop rs merged) c ≡ (covers rs c || covers merged c)
unfolding merge_loop
merge_loop-covers [] merged c a b = refl
merge_loop-covers ((s, e) ∷ rs) [] c a b =
    ground (arith, merge_loop-covers rs ((s, e) ∷ []) c a.1 a.0)
merge_loop-covers ((s, e) ∷ rs) ((t, f) ∷ merged) c a b = elim (Bool-cases (leb s (f + 1))) [
  | inl h ↦ rw h (ground (arith, merge_loop-covers rs ((t, max f e) ∷ merged) c a.1 b.1))
  | inr h ↦ rw h (ground (arith, merge_loop-covers rs ((s, e) ∷ (t, f) ∷ merged) c a.1 a.0))
]

Ascending-sorted : (rs : List Range) → IsSorted (by (lex leb) range_key) rs → Ascending rs
Ascending-sorted [] s = tt
Ascending-sorted (r ∷ rs) s = (
  All-map (λ q. lex leb (range_key r) (range_key q) ≡ true) (λ q. r.0 ≤ q.0) rs
      (λ q h. ground arith) s.0,
  Ascending-sorted rs s.1,
)

-- Merging neither loses a status code nor adds one.
pub merge-covers : (rs : List Range) (c : ℕ) → covers (merge rs) c ≡ covers rs c
unfolding merge
merge-covers rs c =
    any-reverse (within c) (merge_loop sorted [])
    ∙ merge_loop-covers sorted [] c ascending tt
    ∙ or_false (covers sorted c)
    ∙ any-sort_by _ (within c) rs
  where
    sorted : List Range
    sorted = sort_by (by (lex leb) range_key) rs

    ascending : Ascending sorted
    ascending = Ascending-sorted sorted (sort_by-IsSorted _ range_key-IsPreorder rs)

-- Ascending ranges, none empty, with a gap of one code or more between any two.
abbrev pub IsCanonical : List Range → Type 0
IsCanonical [] = Unit
IsCanonical (r ∷ rs) = (r.0 ≤ r.1) × (All (λ q. r.1 + 1 < q.0) rs × IsCanonical rs)

abbrev IsDescending : List Range → Type 0
IsDescending [] = Unit
IsDescending (r ∷ rs) = (r.0 ≤ r.1) × (All (λ q. q.1 + 1 < r.0) rs × IsDescending rs)

IsCanonical-snoc :
    (rs : List Range) (r : Range)
    → IsCanonical rs
    → All (λ q. q.1 + 1 < r.0) rs
    → r.0 ≤ r.1
    → IsCanonical (rs ++ r ∷ [])
IsCanonical-snoc [] r c a h = (h, (tt, tt))
IsCanonical-snoc (q ∷ rs) r c a h =
    (c.0, (All-append _ rs (r ∷ []) c.1.0 (a.0, tt), IsCanonical-snoc rs r c.1.1 a.1 h))

IsCanonical-reverse : (rs : List Range) → IsDescending rs → IsCanonical (reverse rs)
IsCanonical-reverse [] d = tt
IsCanonical-reverse (r ∷ rs) d =
    rw (reverse-cons r rs)
      (IsCanonical-snoc (reverse rs) r (IsCanonical-reverse rs d.1.1) (All-reverse _ rs d.1.0) d.0)

abbrev pub IsRange : Range → Type 0
IsRange r = r.0 ≤ r.1

merge_loop-IsDescending :
    (rs merged : List Range)
    → All IsRange rs
    → Ascending rs
    → StartsBy merged rs
    → IsDescending merged
    → IsDescending (merge_loop rs merged)
unfolding merge_loop
merge_loop-IsDescending [] merged v a b d = d
merge_loop-IsDescending ((s, e) ∷ rs) [] v a b d =
    merge_loop-IsDescending rs ((s, e) ∷ []) v.1 a.1 a.0 (v.0, (tt, tt))
merge_loop-IsDescending ((s, e) ∷ rs) ((t, f) ∷ merged) v a b d =
    elim (Bool-cases (leb s (f + 1))) [
      | inl h ↦
          rw h (merge_loop-IsDescending rs ((t, max f e) ∷ merged) v.1 a.1 b.1 (omega arith, d.1))
      | inr h ↦ rw h (
          merge_loop-IsDescending rs ((s, e) ∷ (t, f) ∷ merged) v.1 a.1 a.0 (
            v.0,
            ((ground arith, All-map _ (λ q. q.1 + 1 < s) merged (λ q g. ground arith) d.1.0), d),
          ))
    ]

-- The merged list is canonical.
pub merge-IsCanonical : (rs : List Range) → All IsRange rs → IsCanonical (merge rs)
unfolding merge
merge-IsCanonical rs v = IsCanonical-reverse (merge_loop sorted []) (
    merge_loop-IsDescending sorted [] (All-sort_by IsRange _ rs v)
      (Ascending-sorted sorted (sort_by-IsSorted _ range_key-IsPreorder rs)) tt tt)
  where
    sorted : List Range
    sorted = sort_by (by (lex leb) range_key) rs
