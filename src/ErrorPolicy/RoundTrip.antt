-- ===== src/ErrorPolicy/RoundTrip.antt =====
-- Printed status ranges are read back, by the normalisation and by the matching alike.
use mathlib.Core.List.{reverse, reverse-reverse}
use void_switch.Base.{
  ℕ, zero, suc, ◌+◌, ◌/◌, ◌%◌, List, [], ◌∷◌, ◌++◌, if◌then◌else◌, ◌≡◌, refl, ◌∙◌, ap, ◌≤◌, All,
  All-append, All-map, All-reverse, arith, inl, inr, Bool-cases, ◌==◌, none, some, ◌≢◌, map,
}
use void_switch.Base.Results.{ok}
use void_switch.ErrorPolicy.Status.{
  Text, Range, lstrip, strip, split, join, three_digits, after_dash, match_part, parse_part,
  parse_parts, decimal, decimal_digits, show_range, show_ranges, int, partition, range_of,
  ranges_of, status_ranges,
}

-- A three-digit code, and its digits.
abbrev IsCode : ℕ → Type 0
IsCode n = (100 ≤ n) × (n ≤ 599)

abbrev digits_of : ℕ → Text
digits_of n = (48 + n / 100) ∷ (48 + n / 10 % 10) ∷ (48 + n % 10) ∷ []

decimal_fuel : (f n : ℕ) → IsCode n → decimal_digits (suc (suc (suc f))) n ≡ digits_of n
unfolding decimal_digits
decimal_fuel f n h = ground arith

decimal_lem : (n : ℕ) → IsCode n → decimal n ≡ digits_of n
unfolding decimal
decimal_lem zero h = absurd (omega arith)
decimal_lem (suc zero) h = absurd (omega arith)
decimal_lem (suc (suc m)) h = decimal_fuel m (suc (suc m)) h

three_digits_lem :
    (n : ℕ) (rest : Text) → IsCode n → three_digits (digits_of n ++ rest) ≡ some (n, rest)
unfolding three_digits
three_digits_lem n rest h = ground arith

abbrev IsPlain : ℕ → Type 0
IsPlain c = (45 ≤ c) × (c ≤ 57)

digits-IsPlain : (n : ℕ) → IsCode n → All IsPlain (digits_of n)
digits-IsPlain n h = omega arith

-- A printed list also holds commas; none of its characters is white space.
abbrev pub IsInk : ℕ → Type 0
IsInk c = 44 ≤ c

lstrip_ink : (t : Text) → All IsInk t → lstrip t ≡ t
unfolding lstrip
lstrip_ink [] h = refl
lstrip_ink (c ∷ t) h = ground arith

pub strip_ink : (t : Text) → All IsInk t → strip t ≡ t
unfolding strip
strip_ink t h = rw (lstrip_ink t h, lstrip_ink (reverse t) (All-reverse _ t h)) (reverse-reverse t)

plain-IsInk : (t : Text) → All IsPlain t → All IsInk t
plain-IsInk t h = All-map IsPlain IsInk t (λ c k. omega arith) h

split_plain : (t : Text) → All IsPlain t → split b',' t ≡ t ∷ []
unfolding split
split_plain [] h = refl
split_plain (c ∷ t) h = rw (split_plain t h.1) (ground arith)

split_comma : (t rest : Text) → All IsPlain t → split b',' (t ++ b',' ∷ rest) ≡ t ∷ split b',' rest
unfolding split
split_comma [] rest h = refl
split_comma (c ∷ t) rest h = rw (split_comma t rest h.1) (ground arith)

split-join :
    (p : Text) (parts : List Text)
    → All (λ t. All IsPlain t) (p ∷ parts)
    → split b',' (join b',' (p ∷ parts)) ≡ p ∷ parts
unfolding join
split-join p [] h = split_plain p h.0
split-join p (q ∷ parts) h =
    split_comma p (join b',' (q ∷ parts)) h.0 ∙ ap (◌∷◌ p) (split-join q parts h.1)

abbrev pub IsStatus : Range → Type 0
IsStatus r = IsCode r.0 × IsCode r.1

abbrev shown : Range → Text
shown (start, last) =
    if start == last then digits_of start else digits_of start ++ (b'-' ∷ digits_of last)

show_range_lem : (r : Range) → IsStatus r → show_range r ≡ shown r
unfolding show_range
show_range_lem (start, last) h = rw (decimal_lem start h.0, decimal_lem last h.1)

shown-IsPlain : (r : Range) → IsStatus r → All IsPlain (shown r)
shown-IsPlain (start, last) h = elim (Bool-cases (start == last)) [
  | inl e ↦ rw e (digits-IsPlain start h.0)
  | inr e ↦ rw e (
      All-append IsPlain (digits_of start) (b'-' ∷ digits_of last) (digits-IsPlain start h.0)
        (omega arith, digits-IsPlain last h.1))
]

after_dash_lem :
    (start last : ℕ) → IsCode last → after_dash start (b'-' ∷ digits_of last) ≡ some (start, last)
unfolding after_dash
after_dash_lem start last h = rw (
  lstrip_ink (digits_of last) (plain-IsInk (digits_of last) (digits-IsPlain last h)),
  three_digits_lem last [] h,
)

match_part_lem : (r : Range) → IsStatus r → match_part (shown r) ≡ some r
unfolding match_part
match_part_lem (start, last) h = elim (Bool-cases (start == last)) [
  | inl e ↦ rw (e, three_digits_lem start [] h.0) (ground arith)
  | inr e ↦
      rw (e, three_digits_lem start (b'-' ∷ digits_of last) h.0) (after_dash_lem start last h.1)
]

parse_part_lem : (r : Range) → IsStatus r → r.0 ≤ r.1 → parse_part (show_range r) ≡ ok r
unfolding parse_part
parse_part_lem r h v =
    rw
      (
        show_range_lem r h,
        strip_ink (shown r) (plain-IsInk (shown r) (shown-IsPlain r h)),
        match_part_lem r h,
      )
      (ground arith)

-- Each printed range is parsed as the range that it is.
pub parse_parts-show :
    (rs : List Range)
    → All IsStatus rs
    → All (λ r. r.0 ≤ r.1) rs
    → parse_parts (map show_range rs) ≡ ok rs
unfolding parse_parts
parse_parts-show [] h v = refl
parse_parts-show (r ∷ rs) h v = rw (parse_part_lem r h.0 v.0, parse_parts-show rs h.1 v.1)

int_lem : (n : ℕ) → IsCode n → int (digits_of n) ≡ some n
unfolding int
int_lem n h = ground arith

partition_plain : (n : ℕ) → IsCode n → partition (digits_of n) ≡ (digits_of n, none)
unfolding partition
partition_plain n h = ground arith

partition_dash :
    (n : ℕ) (rest : Text)
    → IsCode n
    → partition (digits_of n ++ (b'-' ∷ rest)) ≡ (digits_of n, some rest)
unfolding partition
partition_dash n rest h = ground arith

range_of_lem : (r : Range) → IsStatus r → range_of (partition (shown r)) ≡ some r
range_of_lem (start, last) h = elim (Bool-cases (start == last)) [
  | inl e ↦ rw (e, partition_plain start h.0) (ground (arith, int_lem start h.0))
  | inr e ↦
      rw (e, partition_dash start (digits_of last) h.0)
        (ground (arith, int_lem start h.0, int_lem last h.1))
]

ranges_of-show : (rs : List Range) → All IsStatus rs → ranges_of (map show_range rs) ≡ some rs
unfolding ranges_of
ranges_of-show [] h = refl
ranges_of-show (r ∷ rs) h = rw (show_range_lem r h.0, range_of_lem r h.0, ranges_of-show rs h.1)

parts-IsPlain : (rs : List Range) → All IsStatus rs → All (λ t. All IsPlain t) (map show_range rs)
parts-IsPlain [] h = tt
parts-IsPlain (r ∷ rs) h = (rw (show_range_lem r h.0) (shown-IsPlain r h.0), parts-IsPlain rs h.1)

pub split-show_ranges :
    (rs : List Range) → rs ≢ [] → All IsStatus rs → split b',' (show_ranges rs) ≡ map show_range rs
unfolding show_ranges
split-show_ranges [] n h = absurd (n refl)
split-show_ranges (r ∷ rs) n h =
    split-join (show_range r) (map show_range rs) (parts-IsPlain (r ∷ rs) h)

-- The matching reads a printed list of ranges as that list.
pub status_ranges-show_ranges :
    (rs : List Range) → rs ≢ [] → All IsStatus rs → status_ranges (show_ranges rs) ≡ some rs
unfolding status_ranges
status_ranges-show_ranges rs n h = rw (split-show_ranges rs n h) (ranges_of-show rs h)

join-IsInk : (parts : List Text) → All (λ t. All IsPlain t) parts → All IsInk (join b',' parts)
unfolding join
join-IsInk [] h = tt
join-IsInk (p ∷ []) h = plain-IsInk p h.0
join-IsInk (p ∷ q ∷ parts) h =
    All-append IsInk p _ (plain-IsInk p h.0) (omega arith, join-IsInk (q ∷ parts) h.1)

pub show_ranges-IsInk : (rs : List Range) → All IsStatus rs → All IsInk (show_ranges rs)
unfolding show_ranges
show_ranges-IsInk rs h = join-IsInk (map show_range rs) (parts-IsPlain rs h)

join_ne_nil : (p : Text) (parts : List Text) → p ≢ [] → join b',' (p ∷ parts) ≢ []
unfolding join
join_ne_nil p [] n = n
join_ne_nil [] (q ∷ parts) n = absurd (n refl)
join_ne_nil (c ∷ p) (q ∷ parts) n = λ e. cc

shown_ne_nil : (r : Range) → shown r ≢ []
shown_ne_nil (start, last) e = ground arith

pub show_ranges_ne_nil : (rs : List Range) → rs ≢ [] → All IsStatus rs → show_ranges rs ≢ []
unfolding show_ranges
show_ranges_ne_nil [] n h = absurd (n refl)
show_ranges_ne_nil (r ∷ rs) n h =
    join_ne_nil (show_range r) (map show_range rs) (rw (show_range_lem r h.0) (shown_ne_nil r))
