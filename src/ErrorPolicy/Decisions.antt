-- ===== src/ErrorPolicy/Decisions.antt =====
-- When an upstream error is shielded, by which rule, and how much text is looked at.
use void_switch.Base.{
  ℕ, zero, suc, ◌+◌, ◌-◌, String, some, List, [], ◌∷◌, ◌++◌, true, false, leb, ◌==◌, any, length,
  length-append, take, is_some, ◌≤◌, ◌≡◌, refl, ap, arith, inl, inr, ◌⊎◌, ◌↔◌, Bool-cases, All,
}
use void_switch.Base.Results.{ok}
use void_switch.ErrorPolicy.Status.{
  Text, Range, normalize_status_expression, parse_parts, split, strip,
}
use void_switch.ErrorPolicy.Merging.{covers}
use void_switch.ErrorPolicy.Normal.{normalize_status_expression_sound}
use void_switch.ErrorPolicy.{
  TextLib, Body, Rule, RuleMatch, use_adapter, protect, origin, max_match_text_bytes, add_texts,
  encode_all, iter_json_strings, body_value, matching_bytes, status_matches, rule_matches,
  match_selective_ignore_rule, new_api_active, new_api_provenance, is_protected_status,
  evaluate_provider_error_policy,
}

length-take-le : {A : Type 0} (n : ℕ) (l : List A) → length (take n l) ≤ n
length-take-le zero l = omega arith
length-take-le (suc n) [] = omega arith
length-take-le (suc n) (x ∷ l) = omega (arith, length-take-le n l)

not_full : (n : ℕ) → leb max_match_text_bytes n ≡ false → n + 1 ≤ max_match_text_bytes
not_full n h = ground arith

add_texts-length :
    (texts : List (List ℕ)) (aggregate : List ℕ)
    → length aggregate ≤ max_match_text_bytes
    → length (add_texts texts aggregate) ≤ max_match_text_bytes
unfolding add_texts
add_texts-length [] aggregate h = h
add_texts-length (t ∷ more) [] h =
    add_texts-length more (take max_match_text_bytes t) (length-take-le max_match_text_bytes t)
add_texts-length (t ∷ more) (a ∷ rest) h =
    elim (Bool-cases (leb max_match_text_bytes (length (a ∷ rest)))) [
      | inl full ↦ rw full h
      | inr room ↦
          let fits : length parted ≤ max_match_text_bytes =
            omega (arith, length-append (a ∷ rest) (10 ∷ []), not_full _ room) in
          let grown : length (parted ++ take remaining t) ≤ max_match_text_bytes =
            omega (arith, length-append parted (take remaining t), length-take-le remaining t) in
          rw room (elim (Bool-cases (remaining == 0)) [
            | inl done ↦ rw done fits
            | inr more_room ↦
                rw more_room (add_texts-length more (parted ++ take remaining t) grown)
          ])
    ]
  where
    parted : List ℕ
    parted = (a ∷ rest) ++ 10 ∷ []

    remaining : ℕ
    remaining = max_match_text_bytes - length parted

module _ (lib : TextLib) where
  -- However large a body is, no more than 64 KiB of its text is searched.
  pub matching_bytes_bounded :
      (body : Body) → length (matching_bytes lib body) ≤ max_match_text_bytes
  unfolding matching_bytes
  matching_bytes_bounded body =
      add_texts-length (encode_all lib (iter_json_strings (body_value lib body))) [] (omega arith)

  -- With a rule's normalised status expression, the rule's status test passes for exactly the codes
  -- that the ranges written in the expression hold.
  pub status_matches-normalize :
      (e out : Text) (status_code : ℕ)
      → normalize_status_expression e ≡ ok out
      → (written : List Range) × (parse_parts (split b',' (strip e)) ≡ ok written)
        × (status_matches lib (some out) status_code ≡ covers written status_code)
  unfolding status_matches
  status_matches-normalize e out status_code h =
      let (written, merged, parsed, ranges, canonical, same) =
        normalize_status_expression_sound e out h in
      (written, parsed, rw (ranges, status_matches) (same status_code))

  -- What a reported match says: the rule is the first of the list that is enabled and matches the
  -- status and the body.
  abbrev pub FirstMatch : List Rule → ℕ → Body → RuleMatch → Type 0
  FirstMatch rules status_code body m =
      (before : List Rule) × (rule : Rule) × (after : List Rule) × (rules ≡ before ++ rule ∷ after)
      × All (λ r. rule_matches lib r status_code body ≡ false) before
      × (rule_matches lib rule status_code body ≡ true)
      × (m.rule_name ≡ rule.name)
      × (m.status_matched ≡ is_some rule.status_codes)

  -- The reported rule is the first of the list that is enabled and matches the status and the body.
  pub match_selective_ignore_rule_first :
      (rules : List Rule) (status_code : ℕ) (body : Body) (m : RuleMatch)
      → match_selective_ignore_rule lib rules status_code body ≡ some m
      → FirstMatch rules status_code body m
  unfolding match_selective_ignore_rule
  match_selective_ignore_rule_first [] status_code body m h = cc
  match_selective_ignore_rule_first (r ∷ rules) status_code body m h =
      elim (Bool-cases (rule_matches lib r status_code body)) [
        | inl hit ↦ ([], r, rules, refl, tt, hit, ground arith, ground arith)
        | inr miss ↦
            let (before, rule, after, e, missed, hit, named, status) =
              match_selective_ignore_rule_first rules status_code body m (ground arith) in
            (r ∷ before, rule, after, ap (◌∷◌ r) e, (miss, missed), hit, named, status)
      ]

  match_none :
      (rules : List Rule) (status_code : ℕ) (body : Body)
      → is_some (match_selective_ignore_rule lib rules status_code body)
        ≡ any (λ r. rule_matches lib r status_code body) rules
  unfolding match_selective_ignore_rule
  match_none [] status_code body = refl
  match_none (r ∷ rules) status_code body = ground (arith, match_none rules status_code body)

  -- An error is shielded exactly when an enabled rule matches it, or when the upstream is taken for
  -- a new-api relay, its body names an error of another origin, and the status is 401, 402, 403 or
  -- 429. An error that is not shielded keeps its classification.
  pub evaluate_provider_error_policy_table :
      (mode : String) (rules : List Rule) (status_code : ℕ) (headers : List (String × String))
      (body : Body) (original : String)
      → let d = evaluate_provider_error_policy lib mode rules status_code headers body original in
        ((d.action ≡ protect) ↔ (
          (any (λ r. rule_matches lib r status_code body) rules ≡ true)
          ⊎ ((new_api_active lib mode headers ≡ true)
              × (new_api_provenance lib body ≡ origin)
              × (is_protected_status status_code ≡ true))))
        × (d.action ≡ use_adapter → d.final_classification ≡ original)
        × (d.original_classification ≡ original)
  unfolding evaluate_provider_error_policy
  evaluate_provider_error_policy_table mode rules status_code headers body original =
      ground (arith, match_none rules status_code body)
