-- ===== src/ErrorPolicy/Normal.antt =====
-- What normalize_status_expression promises of every expression that it accepts.
use mathlib.Core.List.{reverse, reverse-cons, reverse-reverse, append-nil, append_assoc}
use void_switch.Base.{
  ℕ, ◌+◌, max, List, [], ◌∷◌, ◌++◌, true, false, leb, ◌≡◌, refl, sym, subst, ◌∙◌, ap, ◌<◌, All,
  All-map, All-reverse, arith, inl, inr, Bool-cases, ◌==◌, Option, none, some, ◌≢◌,
}
use void_switch.Base.Sort.{by, lex, All-sort_by, IsSorted, sort_by_fixed}
use void_switch.Base.Results.{Result, ok, bind-eq-ok}
use void_switch.ErrorPolicy.Status.{
  Text, Range, range_key, push_front, merge, merge_loop, strip, split, parse_part, parse_parts,
  match_part, check_range, show_ranges, normalize_stripped, normalize_status_expression,
  status_ranges,
}
use void_switch.ErrorPolicy.Merging.{covers, merge-covers, IsCanonical, merge-IsCanonical, IsRange}
use void_switch.ErrorPolicy.RoundTrip.{
  IsStatus, status_ranges-show_ranges, parse_parts-show, strip_ink, show_ranges-IsInk,
  show_ranges_ne_nil, split-show_ranges,
}

ok_injective : {E A : Type 0} {a b : A} → ◌≡◌ {A = Result E A} (ok a) (ok b) → a ≡ b
ok_injective e = cc

false_ne_true : false ≢ true
false_ne_true e = cc

check_range-IsStatus :
    (raw : Text) (o : Option Range) (r : Range) → check_range raw o ≡ ok r → IsStatus r × IsRange r
check_range-IsStatus raw none r h = cc
check_range-IsStatus raw (some (s, e)) r h = ground arith

parse_parts-IsStatus :
    (parts : List Text) (rs : List Range)
    → parse_parts parts ≡ ok rs
    → All IsStatus rs × All IsRange rs
unfolding parse_parts parse_part
parse_parts-IsStatus [] [] h = (tt, tt)
parse_parts-IsStatus [] (r ∷ rs) h = cc
parse_parts-IsStatus (raw ∷ more) rs h =
    let (r, e, more_ok) = bind-eq-ok (check_range raw (match_part (strip raw))) _ h in
    let (tail, e', last) = bind-eq-ok (parse_parts more) _ more_ok in
    let here = check_range-IsStatus raw (match_part (strip raw)) r e in
    let there = parse_parts-IsStatus more tail e' in
    subst (λ (l : List Range). All IsStatus l × All IsRange l) (ok_injective last)
      ((here.0, there.0), (here.1, there.1))

-- The merging keeps the bounds of the codes.
merge_loop-IsStatus :
    (rs merged : List Range)
    → All IsStatus rs
    → All IsStatus merged
    → All IsStatus (merge_loop rs merged)
unfolding merge_loop
merge_loop-IsStatus [] merged h k = k
merge_loop-IsStatus (r ∷ rs) [] h k = merge_loop-IsStatus rs (r ∷ []) h.1 (h.0, tt)
merge_loop-IsStatus ((s, e) ∷ rs) ((t, f) ∷ merged) h k = elim (Bool-cases (leb s (f + 1))) [
  | inl g ↦ rw g (merge_loop-IsStatus rs ((t, max f e) ∷ merged) h.1 (omega arith, k.1))
  | inr g ↦ rw g (merge_loop-IsStatus rs ((s, e) ∷ (t, f) ∷ merged) h.1 (h.0, k))
]

merge-IsStatus : (rs : List Range) → All IsStatus rs → All IsStatus (merge rs)
unfolding merge
merge-IsStatus rs h =
    All-reverse IsStatus _ (merge_loop-IsStatus _ [] (All-sort_by IsStatus _ rs h) tt)

merge_ne_nil : (rs : List Range) → rs ≢ [] → All IsRange rs → merge rs ≢ []
merge_ne_nil [] n h = absurd (n refl)
merge_ne_nil (r ∷ rs) n h = λ e.
    let held : covers (merge (r ∷ rs)) r.0 ≡ true = merge-covers (r ∷ rs) r.0 ∙ ground arith in
    false_ne_true (ap (λ l. covers l r.0) (sym e) ∙ held)

parse_parts_ne_nil :
    (raw : Text) (parts : List Text) (rs : List Range) → parse_parts (raw ∷ parts) ≡ ok rs → rs ≢ []
unfolding parse_parts
parse_parts_ne_nil raw parts rs h e =
    let (r, _, rest) = bind-eq-ok (parse_part raw) _ h in
    let (tail, _, last) = bind-eq-ok (parse_parts parts) _ rest in cc

split_cons : (sep : ℕ) (t : Text) → (p : Text) × (parts : List Text) × (split sep t ≡ p ∷ parts)
unfolding split
split_cons sep [] = ([], [], refl)
split_cons sep (c ∷ cs) =
    let (p, parts, e) = split_cons sep cs in
    elim (Bool-cases (c == sep)) [
      | inl h ↦ ([], split sep cs, rw h)
      | inr h ↦ (c ∷ p, parts, rw h (rw (e, push_front)))
    ]

-- An accepted expression: what was parsed of it, and the text that comes out.
normalized :
    (t out : Text)
    → normalize_stripped t ≡ ok out
    → (rs : List Range) × (parse_parts (split b',' t) ≡ ok rs)
      × (out ≡ show_ranges (merge rs))
      × (rs ≢ [])
unfolding normalize_stripped
normalized [] out h = cc
normalized (c ∷ cs) out h =
    let (rs, e, last) = bind-eq-ok (parse_parts (split b',' (c ∷ cs))) _ h in
    let (p, parts, s) = split_cons b',' (c ∷ cs) in
    (
      rs,
      e,
      sym (ok_injective last),
      parse_parts_ne_nil p parts rs (subst (λ (l : List Text). parse_parts l ≡ ok rs) s e),
    )

-- For every expression that is accepted: the ranges that the matching later reads from the result
-- ascend, each from a start to an end not below it and with a gap between any two, and hold exactly
-- the status codes that the ranges written in the expression hold.
pub normalize_status_expression_sound :
    (e out : Text)
    → normalize_status_expression e ≡ ok out
    → (written merged : List Range) × (parse_parts (split b',' (strip e)) ≡ ok written)
      × (status_ranges out ≡ some merged)
      × IsCanonical merged
      × ((c : ℕ) → covers merged c ≡ covers written c)
unfolding normalize_status_expression
normalize_status_expression_sound e out h =
    let (rs, parsed, shows, n) = normalized (strip e) out h in
    let (codes, ranges) = parse_parts-IsStatus (split b',' (strip e)) rs parsed in
    (
      rs,
      merge rs,
      parsed,
      subst (λ (t : Text). status_ranges t ≡ some (merge rs)) (sym shows)
          (status_ranges-show_ranges (merge rs) (merge_ne_nil rs n ranges)
            (merge-IsStatus rs codes)),
      merge-IsCanonical rs ranges,
      merge-covers rs,
    )

insertable :
    (r : Range) (rs : List Range)
    → IsCanonical (r ∷ rs)
    → All (λ q. lex leb (range_key r) (range_key q) ≡ true) rs
insertable r rs c = All-map _ _ rs (λ q h. ground arith) c.1.0

canonical-IsSorted : (rs : List Range) → IsCanonical rs → IsSorted (by (lex leb) range_key) rs
canonical-IsSorted [] c = tt
canonical-IsSorted (r ∷ rs) c = (insertable r rs c, canonical-IsSorted rs c.1.1)

abbrev Follows : List Range → List Range → Type 0
Follows [] rs = Unit
Follows (m ∷ merged) rs = All (λ q. m.1 + 1 < q.0) rs

merge_loop_canonical :
    (rs merged : List Range)
    → IsCanonical rs
    → Follows merged rs
    → merge_loop rs merged ≡ reverse rs ++ merged
unfolding merge_loop
merge_loop_canonical [] merged c f = refl
merge_loop_canonical (r ∷ rs) [] c f =
    merge_loop_canonical rs (r ∷ []) c.1.1 c.1.0 ∙ rw (reverse-cons r rs, append-nil)
merge_loop_canonical ((s, e) ∷ rs) ((t, g) ∷ merged) c f =
    let apart : leb s (g + 1) ≡ false = ground arith in
    rw apart (
      merge_loop_canonical rs ((s, e) ∷ (t, g) ∷ merged) c.1.1 c.1.0
      ∙ rw (reverse-cons (s, e) rs, append_assoc))

merge_canonical : (rs : List Range) → IsCanonical rs → merge rs ≡ rs
unfolding merge
merge_canonical rs c =
    rw (sort_by_fixed _ rs (canonical-IsSorted rs c), merge_loop_canonical rs [] c tt, append-nil)
      (reverse-reverse rs)

canonical_ranges : (rs : List Range) → IsCanonical rs → All IsRange rs
canonical_ranges [] c = tt
canonical_ranges (r ∷ rs) c = (c.0, canonical_ranges rs c.1.1)

normalize_stripped_lem :
    (t : Text) (rs : List Range)
    → t ≢ []
    → parse_parts (split b',' t) ≡ ok rs
    → normalize_stripped t ≡ ok (show_ranges (merge rs))
unfolding normalize_stripped
normalize_stripped_lem [] rs n e = absurd (n refl)
normalize_stripped_lem (c ∷ cs) rs n e = rw e

canonical_fixed :
    (rs : List Range)
    → rs ≢ []
    → All IsStatus rs
    → IsCanonical rs
    → normalize_status_expression (show_ranges rs) ≡ ok (show_ranges rs)
unfolding normalize_status_expression
canonical_fixed rs n codes c = rw (strip_ink (show_ranges rs) (show_ranges-IsInk rs codes)) (
    normalize_stripped_lem (show_ranges rs) rs (show_ranges_ne_nil rs n codes)
      (rw (split-show_ranges rs n codes) (parse_parts-show rs codes (canonical_ranges rs c)))
    ∙ ap (λ (l : List Range). ok (show_ranges l)) (merge_canonical rs c))

-- What the normalisation yields it accepts, and yields again.
pub normalize_status_expression_idem :
    (e out : Text)
    → normalize_status_expression e ≡ ok out
    → normalize_status_expression out ≡ ok out
unfolding normalize_status_expression
normalize_status_expression_idem e out h =
    let (rs, parsed, shows, n) = normalized (strip e) out h in
    let (codes, ranges) = parse_parts-IsStatus (split b',' (strip e)) rs parsed in
    subst (λ (t : Text). normalize_status_expression t ≡ ok t) (sym shows)
      (canonical_fixed (merge rs) (merge_ne_nil rs n ranges) (merge-IsStatus rs codes)
        (merge-IsCanonical rs ranges))
