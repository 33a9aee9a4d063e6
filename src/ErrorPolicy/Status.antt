-- ===== src/ErrorPolicy/Status.antt =====
-- normalize_status_expression and _status_ranges of
-- backend/voidswitch/services/provider_error_policy.py. A text is a list of code points; digits and
-- white space are those of ASCII (`\d`, `\s` and `strip` also know those of the rest of Unicode).
use mathlib.Core.List.{reverse}
use void_switch.Base.{
  ℕ, zero, suc, ◌+◌, ◌-◌, ◌*◌, ◌/◌, ◌%◌, max, Option, none, some, List, [], ◌∷◌, ◌++◌, Bool, ◌&&◌,
  ◌||◌, leb, ltb, ◌==◌, if◌then◌else◌, map,
}
use void_switch.Base.Sort.{sort_by, by, lex}
use void_switch.Base.Results.{Result, ok, err, ◌>>=◌}

abbrev pub Text : Type 0
Text = List ℕ

abbrev pub is_space : ℕ → Bool
is_space c = (leb 9 c && leb c 13) || (leb 28 c && leb c 32)

abbrev pub is_digit : ℕ → Bool
is_digit c = leb 48 c && leb c 57

unfoldable pub lstrip : Text → Text
lstrip [] = []
lstrip (c ∷ cs) = if is_space c then lstrip cs else c ∷ cs

unfoldable pub strip : Text → Text
unfolding lstrip
strip s = reverse (lstrip (reverse (lstrip s)))

abbrev pub push_front : ℕ → List Text → List Text
push_front c [] = (c ∷ []) ∷ []
push_front c (part ∷ parts) = (c ∷ part) ∷ parts

unfoldable pub split : ℕ → Text → List Text
split sep [] = [] ∷ []
split sep (c ∷ cs) = let rest = split sep cs in if c == sep then [] ∷ rest else push_front c rest

unfoldable pub join : ℕ → List Text → Text
join sep [] = []
join sep (part ∷ []) = part
join sep (part ∷ next ∷ parts) = part ++ (sep ∷ join sep (next ∷ parts))

-- `(\d{3})` at the front of a text: its value and what follows.
unfoldable pub three_digits : Text → Option (ℕ × Text)
three_digits (a ∷ b ∷ c ∷ rest) =
    if is_digit a && (is_digit b && is_digit c)
    then some ((a - 48) * 100 + (b - 48) * 10 + (c - 48), rest)
    else none
three_digits _ = none

abbrev pub Range : Type 0
Range = ℕ × ℕ

abbrev pub closed_range : ℕ → Option (ℕ × Text) → Option Range
closed_range start (some (last, [])) = some (start, last)
closed_range start _ = none

unfoldable pub after_dash : ℕ → Text → Option Range
unfolding three_digits lstrip
after_dash start [] = none
after_dash start (c ∷ cs) =
    if c == b'-' then closed_range start (three_digits (lstrip cs)) else none

abbrev pub after_start : Option (ℕ × Text) → Option Range
after_start none = none
after_start (some (start, [])) = some (start, start)
after_start (some (start, c ∷ cs)) = after_dash start (lstrip (c ∷ cs))

-- `_STATUS_PART.fullmatch(part)` with the numbers of its groups.
unfoldable pub match_part : Text → Option Range
unfolding three_digits after_dash
match_part part = after_start (three_digits part)

pub data StatusError : Type 0 where
  blank : StatusError
  invalid_part : Text → StatusError
  out_of_bounds reversed : StatusError

abbrev pub in_bounds : ℕ → Bool
in_bounds n = leb 100 n && leb n 599

abbrev pub check_range : Text → Option Range → Result StatusError Range
check_range raw none = err (invalid_part raw)
check_range raw (some (start, last)) =
    if in_bounds start && in_bounds last
    then (if leb start last then ok (start, last) else err reversed)
    else err out_of_bounds

unfoldable pub parse_part : Text → Result StatusError Range
unfolding match_part strip
parse_part raw = check_range raw (match_part (strip raw))

unfoldable pub parse_parts : List Text → Result StatusError (List Range)
unfolding parse_part
parse_parts [] = ok []
parse_parts (raw ∷ more) = do r ← parse_part raw; rs ← parse_parts more; ok (r ∷ rs)

abbrev pub range_key : Range → List ℕ
range_key (start, last) = start ∷ last ∷ []

-- The loop over the sorted ranges; the list built so far, last range first.
unfoldable pub merge_loop : List Range → List Range → List Range
merge_loop [] merged = merged
merge_loop ((start, last) ∷ more) [] = merge_loop more ((start, last) ∷ [])
merge_loop ((start, last) ∷ more) ((s, e) ∷ merged) =
    merge_loop more
      (if leb start (e + 1) then (s, max e last) ∷ merged else (start, last) ∷ (s, e) ∷ merged)

unfoldable pub merge : List Range → List Range
unfolding merge_loop sort_by
merge ranges = reverse (merge_loop (sort_by (by (lex leb) range_key) ranges) [])

-- `str(n)`: the digits of a number; the fuel is more than their count.
unfoldable pub decimal_digits : ℕ → ℕ → Text
decimal_digits zero n = []
decimal_digits (suc f) n =
    let rest = decimal_digits f (n / 10) ++ (48 + n % 10) ∷ [] in
    if ltb n 10 then (48 + n) ∷ [] else rest

unfoldable pub decimal : ℕ → Text
unfolding decimal_digits
decimal n = decimal_digits (suc n) n

unfoldable pub show_range : Range → Text
unfolding decimal
show_range (start, last) =
    if start == last then decimal start else decimal start ++ (b'-' ∷ decimal last)

unfoldable pub show_ranges : List Range → Text
unfolding show_range join
show_ranges rs = join b',' (map show_range rs)

unfoldable pub normalize_stripped : Text → Result StatusError Text
unfolding parse_parts merge show_ranges split
normalize_stripped [] = err blank
normalize_stripped (c ∷ cs) = do
  ranges ← parse_parts (split b',' (c ∷ cs))
  ok (show_ranges (merge ranges))

unfoldable pub normalize_status_expression : Text → Result StatusError Text
unfolding normalize_stripped strip
normalize_status_expression expression = normalize_stripped (strip expression)

-- `int` of a text of digits. A text of another form does not come out of the normalisation, and
-- counts as the ValueError that `int` raises on most of them.
unfoldable pub int_digits : ℕ → Text → Option ℕ
int_digits n [] = some n
int_digits n (c ∷ cs) =
    let rest = int_digits (n * 10 + (c - 48)) cs in if is_digit c then rest else none

unfoldable pub int : Text → Option ℕ
unfolding int_digits
int [] = none
int (c ∷ cs) = int_digits 0 (c ∷ cs)

-- `part.partition("-")`: the text before the first dash, and the text after it if there is one.
unfoldable pub partition : Text → Text × Option Text
partition [] = ([], none)
partition (c ∷ cs) =
    let (before, rest) = partition cs in if c == b'-' then ([], some cs) else (c ∷ before, rest)

abbrev pub range_of : Text × Option Text → Option Range
range_of (start_raw, none) = elim (int start_raw) [ none ↦ none | some s ↦ some (s, s) ]
range_of (start_raw, some end_raw) = elim (int start_raw) [
  | none ↦ none
  | some s ↦ elim (int end_raw) [ none ↦ none | some e ↦ some (s, e) ]
]

abbrev pub cons_range : Option Range → Option (List Range) → Option (List Range)
cons_range (some r) (some rs) = some (r ∷ rs)
cons_range _ _ = none

unfoldable pub ranges_of : List Text → Option (List Range)
unfolding int partition
ranges_of [] = some []
ranges_of (part ∷ parts) = cons_range (range_of (partition part)) (ranges_of parts)

unfoldable pub status_ranges : Text → Option (List Range)
unfolding ranges_of split
status_ranges normalized = ranges_of (split b',' normalized)
