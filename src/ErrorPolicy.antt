-- ===== src/ErrorPolicy.antt =====
-- backend/voidswitch/services/provider_error_policy.py: which upstream errors are shielded from the
-- adapters. The text functions that Python's library brings (decoding, encoding, case folding,
-- `json.loads`) are the fields of `TextLib`. Headers and rules are lists in their order.
pub mod Status
pub mod Merging
pub mod RoundTrip
pub mod Normal
pub mod Decisions
mod Tests
use text.Mathlib.Text.{find?}
use void_switch.Base.{
  ℕ, zero, suc, ◌+◌, ◌-◌, ◌*◌, String, Option, none, some, List, [], ◌∷◌, ◌++◌, Bool, true, false,
  ◌&&◌, ◌||◌, not, leb, ◌==◌, if◌then◌else◌, any, length, take, str_eq, is_some, ◌≤◌,
}
use void_switch.Base.Json.{Json, Items, Fields, str, arr, obj, nil, cons, end, field, get}
use void_switch.ErrorPolicy.Status.{Text, Range, status_ranges}

-- `json.loads` is none where it raises. The decoders do not raise in the modes that the code asks
-- for, and `encode` does not for texts without lone surrogates, the only ones here.
pub record TextLib : Type 0 where
  pub decode_replace : List ℕ → String
  pub decode_ignore : List ℕ → String
  pub encode : String → List ℕ
  pub casefold : String → String
  pub json_loads : String → Option Json
  pub json_loads_bytes : List ℕ → Option Json
  pub strip_str : String → String

pub data Body : Type 0 where
  bytes : List ℕ → Body
  string : String → Body
  value : Json → Body

pub data ErrorProvenance : Type 0 where
  not_evaluated relay origin unknown : ErrorProvenance

pub data PolicyAction : Type 0 where
  use_adapter protect : PolicyAction

pub record RuleMatch : Type 0 where
  pub rule_name : String
  pub status_matched : Bool
  pub body_matched : Bool

pub record ProviderErrorDecision : Type 0 where
  pub action : PolicyAction
  pub original_classification : String
  pub final_classification : String
  pub provenance : ErrorProvenance
  pub matched_rule_name : Option String
  pub status_matched : Bool
  pub body_matched : Bool

-- A rule with the defaults of `_rule_value` filled in; the status expression is a normalised one.
pub record Rule : Type 0 where
  pub name : String
  pub enabled : Bool
  pub status_codes : Option Text
  pub body_substrings : List String

abbrev pub max_match_text_bytes : ℕ
max_match_text_bytes = 64 * 1024

-- The strings of a value, depth first, in the order of `_iter_json_strings`.
unfoldable mutual
  pub iter_json_strings : Json → List String
  iter_json_strings (str s) = s ∷ []
  iter_json_strings (obj fs) = iter_fields fs
  iter_json_strings (arr xs) = iter_items xs
  iter_json_strings _ = []

  pub iter_items : Items → List String
  iter_items nil = []
  iter_items (cons x xs) = iter_json_strings x ++ iter_items xs

  pub iter_fields : Fields → List String
  iter_fields end = []
  iter_fields (field k v fs) = iter_json_strings v ++ iter_fields fs

abbrev or_text : String → Option Json → Json
or_text s none = str s
or_text s (some j) = j

abbrev pub is_empty : List String → Bool
is_empty [] = true
is_empty (s ∷ more) = false

abbrev pub is_protected_status : ℕ → Bool
is_protected_status n = n == 401 || (n == 402 || (n == 403 || n == 429))

abbrev pub is_origin : ErrorProvenance → Bool
is_origin origin = true
is_origin _ = false

abbrev pub decision : PolicyAction → String → String → ErrorProvenance → ProviderErrorDecision
decision action original final provenance = record {
  action = action;
  original_classification = original;
  final_classification = final;
  provenance = provenance;
  matched_rule_name = none;
  status_matched = false;
  body_matched = false;
}

-- The loop over the strings: `break` ends it, and a newline parts two texts.
pub add_texts : List (List ℕ) → List ℕ → List ℕ
add_texts [] aggregate = aggregate
add_texts (t ∷ more) [] = add_texts more (take max_match_text_bytes t)
add_texts (t ∷ more) (a ∷ rest) =
    let aggregate = a ∷ rest in
    let parted = aggregate ++ 10 ∷ [] in
    let remaining = max_match_text_bytes - length parted in
    let go_on = add_texts more (parted ++ take remaining t) in
    if leb max_match_text_bytes (length aggregate)
    then aggregate
    else if remaining == 0
    then parted
    else go_on

module _ (lib : TextLib) where
  body_value : Body → Json
  body_value (bytes raw) =
      let decoded = lib.decode_replace raw in or_text decoded (lib.json_loads decoded)
  body_value (string s) = or_text s (lib.json_loads s)
  body_value (value j) = j

  encode_all : List String → List (List ℕ)
  encode_all [] = []
  encode_all (s ∷ more) = lib.encode s ∷ encode_all more

  pub matching_bytes : Body → List ℕ
  unfolding add_texts body_value encode_all iter_json_strings
  matching_bytes body = add_texts (encode_all (iter_json_strings (body_value body))) []

  matching_text : Body → String
  unfolding matching_bytes
  matching_text body = lib.casefold (lib.decode_ignore (matching_bytes body))

  pub status_matches : Option Text → ℕ → Bool
  unfolding status_ranges
  status_matches none status_code = true
  status_matches (some expression) status_code = elim (status_ranges expression) [
    | none ↦ false
    | some ranges ↦ any (λ r. leb r.0 status_code && leb status_code r.1) ranges
  ]

  pub body_matches : List String → Body → Bool
  unfolding matching_text
  body_matches substrings body =
      is_empty substrings
      || any (λ item. is_some (find? (matching_text body) (lib.casefold item))) substrings

  pub rule_matches : Rule → ℕ → Body → Bool
  unfolding status_matches body_matches
  rule_matches rule status_code body =
      rule.enabled
      && (status_matches rule.status_codes status_code && body_matches rule.body_substrings body)

  unfoldable pub match_selective_ignore_rule : List Rule → ℕ → Body → Option RuleMatch
  unfolding rule_matches
  match_selective_ignore_rule [] status_code body = none
  match_selective_ignore_rule (rule ∷ rules) status_code body =
      let rest = match_selective_ignore_rule rules status_code body in
      if rule_matches rule status_code body
      then some (record {
        rule_name = rule.name;
        status_matched = is_some rule.status_codes;
        body_matched = not (is_empty rule.body_substrings);
      })
      else rest

  header_value : List (String × String) → String → Option String
  header_value [] target = none
  header_value ((key, v) ∷ headers) target =
      let rest = header_value headers target in
      if str_eq (lib.casefold key) target then some v else rest

  abbrev is_blank : String → Bool
  is_blank s = str_eq (lib.strip_str s) ""

  -- Every mode but the two named ones is `auto`.
  unfoldable pub new_api_active : String → List (String × String) → Bool
  unfolding header_value
  new_api_active mode headers =
      if str_eq mode "enabled"
      then true
      else if str_eq mode "disabled"
      then false
      else (elim (header_value headers (lib.casefold "X-New-Api-Version")) [
        | none ↦ false
        | some v ↦ not (is_blank v)
      ])

  type_provenance : Option Json → ErrorProvenance
  type_provenance (some (str t)) =
      if is_blank t then unknown else if str_eq t "new_api_error" then relay else origin
  type_provenance _ = unknown

  error_provenance : Option Json → ErrorProvenance
  unfolding type_provenance get
  error_provenance (some (obj error)) = type_provenance (get "type" error)
  error_provenance _ = unknown

  json_provenance : Option Json → ErrorProvenance
  unfolding error_provenance
  json_provenance (some (obj fields)) = error_provenance (get "error" fields)
  json_provenance _ = unknown

  pub new_api_provenance : Body → ErrorProvenance
  unfolding json_provenance
  new_api_provenance (bytes raw) = json_provenance (lib.json_loads_bytes raw)
  new_api_provenance (string s) = json_provenance (lib.json_loads s)
  new_api_provenance (value j) = json_provenance (some j)

  abbrev without_rule : String → List (String × String) → ℕ → Body → String → ProviderErrorDecision
  without_rule mode headers status_code body original =
      if new_api_active mode headers
      then (let provenance = new_api_provenance body in
          if is_origin provenance && is_protected_status status_code
          then decision protect original "protected_origin_error" provenance
          else decision use_adapter original original provenance)
      else decision use_adapter original original not_evaluated

  unfoldable pub evaluate_provider_error_policy :
      String → List Rule → ℕ → List (String × String) → Body → String → ProviderErrorDecision
  unfolding match_selective_ignore_rule new_api_active new_api_provenance
  evaluate_provider_error_policy mode rules status_code headers body original =
      elim (match_selective_ignore_rule rules status_code body) [
        | none ↦ without_rule mode headers status_code body original
        | some m ↦ record {
          action = protect;
          original_classification = original;
          final_classification = "selective_ignore";
          provenance = not_evaluated;
          matched_rule_name = some m.rule_name;
          status_matched = m.status_matched;
          body_matched = m.body_matched;
        }
      ]
