-- ===== src/ErrorPolicy/Tests.antt =====
-- The error policy at concrete inputs.
use Prim.Native.Char.{code}
use void_switch.Base.{
  ℕ, String, none, some, List, [], ◌∷◌, Bool, true, false, ◌≡◌, refl, ◌≤◌, length, ◌↔◌, ◌⊎◌, any,
}
use void_switch.Base.Results.{ok, err}
use void_switch.Base.Json.{obj, str, field, end}
use void_switch.ErrorPolicy.Status.{
  Text, Range, normalize_status_expression, status_ranges, strip, split, parse_parts, blank,
}
use void_switch.ErrorPolicy.Merging.{covers, IsCanonical}
use void_switch.ErrorPolicy.Normal.{
  normalize_status_expression_sound, normalize_status_expression_idem,
}
use void_switch.ErrorPolicy.{
  TextLib, Body, string, value, Rule, RuleMatch, protect, use_adapter, origin, max_match_text_bytes,
  matching_bytes, status_matches, rule_matches, match_selective_ignore_rule, new_api_active,
  new_api_provenance, is_protected_status, evaluate_provider_error_policy,
}
use void_switch.ErrorPolicy.Decisions.{
  matching_bytes_bounded, status_matches-normalize, match_selective_ignore_rule_first,
  evaluate_provider_error_policy_table, FirstMatch,
}

abbrev codes : String → List ℕ
codes String.[] = []
codes (String.◌∷◌ c s) = code c ∷ codes s

abbrev lib : TextLib
lib = record {
  decode_replace = λ b. "";
  decode_ignore = λ b. if_empty b;
  encode = codes;
  casefold = λ s. s;
  json_loads = λ s. none;
  json_loads_bytes = λ b. none;
  strip_str = λ s. s;
}
  where
    if_empty : List ℕ → String
    if_empty [] = ""
    if_empty (b ∷ bs) = "busy"

abbrev written : Text
written = codes " 500-502, 429,503 "

abbrev normal : Text
normal = codes "429,500-503"

normalize_runs : normalize_status_expression written ≡ ok normal
unfolding normalize_status_expression
normalize_runs = refl

normalize_blank : normalize_status_expression (codes "  ") ≡ err blank
unfolding normalize_status_expression
normalize_blank = refl

normalize_status_expression_sound_example :
    (rs merged : List Range) × (parse_parts (split b',' (strip written)) ≡ ok rs)
    × (status_ranges normal ≡ some merged)
    × IsCanonical merged
    × ((c : ℕ) → covers merged c ≡ covers rs c)
normalize_status_expression_sound_example =
    normalize_status_expression_sound written normal normalize_runs

normalize_status_expression_idem_example : normalize_status_expression normal ≡ ok normal
normalize_status_expression_idem_example =
    normalize_status_expression_idem written normal normalize_runs

matching_bytes_bounded_example :
    length (matching_bytes lib (string "overloaded")) ≤ max_match_text_bytes
matching_bytes_bounded_example = matching_bytes_bounded lib (string "overloaded")

status_matches-normalize_example :
    (rs : List Range) × (parse_parts (split b',' (strip written)) ≡ ok rs)
    × (status_matches lib (some normal) 501 ≡ covers rs 501)
status_matches-normalize_example = status_matches-normalize lib written normal 501 normalize_runs

abbrev rule : String → Bool → Rule
rule name enabled = record {
  name = name;
  enabled = enabled;
  status_codes = some normal;
  body_substrings = "busy" ∷ [];
}

abbrev rules : List Rule
rules = rule "off" false ∷ rule "busy" true ∷ []

abbrev busy_match : RuleMatch
busy_match = record { rule_name = "busy"; status_matched = true; body_matched = true }

match_runs : match_selective_ignore_rule lib rules 502 (string "x") ≡ some busy_match
unfolding match_selective_ignore_rule status_ranges
match_runs = refl

match_selective_ignore_rule_first_example : FirstMatch lib rules 502 (string "x") busy_match
match_selective_ignore_rule_first_example =
    match_selective_ignore_rule_first lib rules 502 (string "x") busy_match match_runs

abbrev quota_error : Body
quota_error = value (obj (field "error" (obj (field "type" (str "insufficient_quota") end)) end))

evaluate_provider_error_policy_table_example :
    let d = evaluate_provider_error_policy lib "enabled" [] 429 [] quota_error "rate_limit" in
    ((d.action ≡ protect) ↔ (
      (any (λ r. rule_matches lib r 429 quota_error) [] ≡ true)
      ⊎ ((new_api_active lib "enabled" [] ≡ true)
          × (new_api_provenance lib quota_error ≡ origin)
          × (is_protected_status 429 ≡ true))))
    × (d.action ≡ use_adapter → d.final_classification ≡ "rate_limit")
    × (d.original_classification ≡ "rate_limit")
evaluate_provider_error_policy_table_example =
    evaluate_provider_error_policy_table lib "enabled" [] 429 [] quota_error "rate_limit"

quota_error_is_shielded :
    (evaluate_provider_error_policy lib "enabled" [] 429 [] quota_error "rate_limit").action
    ≡ protect
unfolding evaluate_provider_error_policy
quota_error_is_shielded = refl
