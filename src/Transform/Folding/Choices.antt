-- ===== src/Transform/Folding/Choices.antt =====
-- The choices that are built from the fold of an OpenAI stream.
use void_switch.Base.{
  ◌≡◌, refl, ap, ◌∙◌, sym, String, List, [], ◌∷◌, ◌++◌, Bool, true, false, not, any, All,
  Bool-cases, inl, inr, if_rule, arith, any-append,
}
use void_switch.Base.Sort.{sort_by, any-sort_by}
use void_switch.Base.Results.{Result, err, ok, ◌>>=◌}
use void_switch.Base.Json.{Json}
use void_switch.Transform.Values.{Python}
use void_switch.Transform.Numbered.{
  ℤ, is_int, is_int_sound, le_int, Numbered, value_at, keys_of, distinct,
}
use void_switch.Transform.Folding.{
  Failure, stream_error, other_error, Fold, ToolCall, new_call, join_texts, join_values,
}
use void_switch.Transform.Folding.Steps.{AllValues, AllValues-value_at, IsJoinable, IsSound}
use void_switch.Transform.Folding.Growth.{needs_rule}
use void_switch.Transform.Folding.Built.{
  Choice, or_none, is_empty, finish_for, built_calls, built_choice, built_choices, indexes_of,
}

-- What comes from a sound fold raises nothing.
abbrev pub SafeIf {ℓ} : {A : Type ℓ} → Type 0 → Result Failure A → Type 0
SafeIf sound (ok a) = Unit
SafeIf sound (err (stream_error m)) = ⊥
SafeIf sound (err other_error) = sound → ⊥

-- A choice has the texts that the fold holds under its index.
abbrev pub Describes : Fold → Choice → Type 0
Describes s c =
    (c.message.content ≡ or_none (join_texts (value_at [] c.index s.contents)))
    × (c.message.reasoning_content ≡ or_none (join_texts (value_at [] c.index s.reasonings)))

abbrev pub IsBuilt : Fold → List ℤ → Result Failure (List Choice) → Type 0
IsBuilt s indexes (ok choices) =
    All (Describes s) choices
    × ((i : ℤ) → any (λ c. is_int c.index i) choices ≡ any (λ j. is_int j i) indexes)
IsBuilt s indexes (err (stream_error m)) = ⊥
IsBuilt s indexes (err other_error) = IsSound s → ⊥

module _ (i : ℤ) where
  abbrev here : ℤ → Bool
  here j = is_int j i

  value_at-keys_of :
      (d : Numbered (List String))
      → is_empty (value_at [] i d) ≡ false
      → any here (keys_of d) ≡ true
  unfolding value_at
  value_at-keys_of [] h = absurd (cc h)
  value_at-keys_of ((j, a) ∷ d) h = elim (Bool-cases (is_int j i)) [
    | inl e ↦ rw e refl
    | inr e ↦ ground (arith, value_at-keys_of d (rw e at h))
  ]

  any-found : (j : ℤ) (is : List ℤ) → any (is_int j) is ≡ true → here j ≡ true → any here is ≡ true
  any-found j [] h e = absurd (cc h)
  any-found j (k ∷ is) h e = elim (Bool-cases (is_int j k)) [
    | inl same ↦ rw (ap here (sym (is_int_sound j k same)) ∙ e) refl
    | inr other ↦ ground (arith, any-found j is (rw other at h) e)
  ]

  any-distinct : (is : List ℤ) → any here (distinct is) ≡ any here is
  unfolding distinct
  any-distinct [] = refl
  any-distinct (j ∷ is) = elim (Bool-cases (any (is_int j) is)) [
    | inl e ↦ rw e (ground (arith, any-distinct is, any-found j is e))
    | inr e ↦ rw e (ground (arith, any-distinct is))
  ]

  any-nonempty : (is : List ℤ) → any here is ≡ true → is_empty is ≡ false
  any-nonempty [] h = absurd (cc h)
  any-nonempty (j ∷ is) h = refl

module _ (python : Python) (fresh_id : Json) where
  -- An index with a text gets a choice.
  pub indexes_of-any :
      (i : ℤ) (s : Fold)
      → is_empty (value_at [] i s.contents) ≡ false
      → any (λ j. is_int j i) (indexes_of python fresh_id s) ≡ true
  unfolding indexes_of
  indexes_of-any i s h =
      let rest = keys_of s.reasonings ++ (keys_of s.tool_calls ++ keys_of s.finish_reasons) in
      let keys = keys_of s.contents ++ rest in
      let found : any (here i) (sort_by le_int (distinct keys)) ≡ true =
        any-sort_by le_int (here i) (distinct keys)
        ∙ any-distinct i keys
        ∙ any-append (here i) (keys_of s.contents) rest
        ∙ ground (arith, value_at-keys_of i s.contents h) in
      if_rule (λ is. any (here i) is ≡ true) (is_empty (sort_by le_int (distinct keys))) _ _
        (λ e. absurd (cc (e, any-nonempty i _ found))) λ e. found

  kept_safe {ℓ κ} :
      {A : Type ℓ} {B : Type κ} (sound : Type 0) (out : Result Failure A) (f : A → B)
      → SafeIf sound out
      → SafeIf sound (out >>= λ a. ok (f a))
  kept_safe sound (ok a) f h = tt
  kept_safe sound (err (stream_error m)) f h = h
  kept_safe sound (err other_error) f h = h

  built_calls-SafeIf :
      (entries : Numbered ToolCall) (indexes : List ℤ)
      → SafeIf (AllValues IsJoinable entries) (built_calls python fresh_id entries indexes)
  unfolding built_calls
  built_calls-SafeIf entries [] = tt
  built_calls-SafeIf entries (tidx ∷ indexes) =
      needs_rule (SafeIf (AllValues IsJoinable entries))
        (join_values (value_at new_call tidx entries).arguments) _
        (λ e sound. absurd (cc (e, AllValues-value_at IsJoinable new_call tidx entries refl sound)))
        λ arguments e.
          kept_safe (AllValues IsJoinable entries) (built_calls python fresh_id entries indexes) _
            (built_calls-SafeIf entries indexes)

  -- One more choice in front.
  IsBuilt-cons :
      (s : Fold) (idx : ℤ) (indexes : List ℤ) (c : Choice) (out : Result Failure (List Choice))
      → c.index ≡ idx
      → Describes s c
      → IsBuilt s indexes out
      → IsBuilt s (idx ∷ indexes) (out >>= λ choices. ok (c ∷ choices))
  IsBuilt-cons s idx indexes c (ok choices) e d (tells, covers) =
      ((d, tells), λ i. rw (e, covers i) refl)
  IsBuilt-cons s idx indexes c (err (stream_error m)) e d h = h
  IsBuilt-cons s idx indexes c (err other_error) e d h = h

  pub built_choices-IsBuilt :
      (s : Fold) (indexes : List ℤ) → IsBuilt s indexes (built_choices python fresh_id s indexes)
  unfolding built_choices built_choice
  built_choices-IsBuilt s [] = (tt, λ i. refl)
  built_choices-IsBuilt s (idx ∷ indexes) =
      let entries = value_at [] idx s.tool_calls in
      with_calls (built_calls python fresh_id entries (sort_by le_int (keys_of entries)))
        (built_calls-SafeIf entries (sort_by le_int (keys_of entries)))
        (built_choices-IsBuilt s indexes)
    where
      with_calls :
          (out : Result Failure (List (Json × Json × String × String)))
          → SafeIf (AllValues IsJoinable (value_at [] idx s.tool_calls)) out
          → IsBuilt s indexes (built_choices python fresh_id s indexes)
          → IsBuilt s (idx ∷ indexes) (
              (out >>= λ calls. ok (record {
                index = idx;
                message = record {
                  content = or_none (join_texts (value_at [] idx s.contents));
                  reasoning_content = or_none (join_texts (value_at [] idx s.reasonings));
                  tool_calls = calls;
                };
                finish_reason =
                    finish_for python fresh_id s.finish_reasons idx (not (is_empty calls));
              }))
              >>= λ choice.
                  built_choices python fresh_id s indexes >>= λ choices. ok (choice ∷ choices))
      with_calls (ok calls) h more =
          IsBuilt-cons s idx indexes _ (built_choices python fresh_id s indexes) refl (refl, refl)
            more
      with_calls (err (stream_error m)) h more = absurd h
      with_calls (err other_error) h more =
          λ sound. h (AllValues-value_at (AllValues IsJoinable) [] idx s.tool_calls tt sound)
