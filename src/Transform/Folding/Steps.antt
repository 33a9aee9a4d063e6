-- ===== src/Transform/Folding/Steps.antt =====
-- What each step of the fold over an OpenAI stream changes.
use Prim.Native.String.{◌++◌ as str_append}
use void_switch.Base.{
  ◌≡◌, refl, ap, ◌∙◌, sym, String, Option, none, some, List, [], ◌∷◌, ◌++◌, Bool, true, false, ◌||◌,
  if◌then◌else◌, is_some, All, if_rule, arith,
}
use void_switch.Base.Results.{Result, err, ok, ◌>>=◌}
use void_switch.Base.Json.{Json, Fields, null, num, other_num, bool, arr, str, obj}
use void_switch.Transform.Values.{Python, truthy, get_or}
use void_switch.Transform.Numbered.{ℤ, is_int, Numbered, value_at, update_at}
use void_switch.Transform.Folding.{
  Failure, stream_error, other_error, ToolCall, Fold, join_values, add_name, read_name,
  read_arguments, read_function, read_call,
}
use void_switch.Transform.Folding.Told.{is_bad_text, is_bad_function}

-- The values of a dict have a property.
abbrev pub AllValues {ℓ κ} : {A : Type ℓ} → (A → Type κ) → Numbered A → Type κ
AllValues P d = All (λ entry. P entry.1) d

module _ {ℓ κ} {A : Type ℓ} (P : A → Type κ) where
  pub AllValues-value_at :
      (otherwise : A) (i : ℤ) (d : Numbered A)
      → P otherwise
      → AllValues P d
      → P (value_at otherwise i d)
  unfolding value_at
  AllValues-value_at otherwise i [] h k = h
  AllValues-value_at otherwise i ((j, a) ∷ d) h k =
      if_rule P (is_int j i) _ _ (λ e. k.0) (λ e. AllValues-value_at otherwise i d h k.1)

  pub AllValues-update_at :
      (otherwise : A) (change : A → A) (i : ℤ) (d : Numbered A)
      → P (change otherwise)
      → ((a : A) → P a → P (change a))
      → AllValues P d
      → AllValues P (update_at otherwise change i d)
  unfolding update_at
  AllValues-update_at otherwise change i [] h f k = (h, tt)
  AllValues-update_at otherwise change i ((j, a) ∷ d) h f k =
      if_rule (AllValues P) (is_int j i) _ _ (λ e. (f a k.0, k.1))
        (λ e. (k.0, AllValues-update_at otherwise change i d h f k.1))

-- The arguments of a call, or of the calls of a choice, can be joined.
abbrev pub IsJoinable : ToolCall → Type 0
IsJoinable entry = is_some (join_values entry.arguments) ≡ true

abbrev pub IsSound : Fold → Type 0
IsSound s = AllValues (AllValues IsJoinable) s.tool_calls

push-is_some :
    (t : String) (o : Option String)
    → is_some {A = String} (elim o [ none ↦ none | some ts ↦ some (str_append t ts) ]) ≡ is_some o
push-is_some t none = refl
push-is_some t (some ts) = refl

join_values-str :
    (values : List Json) (t : String)
    → is_some (join_values values) ≡ true
    → is_some (join_values (values ++ str t ∷ [])) ≡ true
join_values-str [] t h = refl
join_values-str (str u ∷ values) t h =
    push-is_some u _ ∙ join_values-str values t (sym (push-is_some u (join_values values)) ∙ h)
join_values-str (null ∷ values) t h = h
join_values-str (bool b ∷ values) t h = h
join_values-str (num n ∷ values) t h = h
join_values-str (other_num l ∷ values) t h = h
join_values-str (arr items ∷ values) t h = h
join_values-str (obj fields ∷ values) t h = h

module _ (python : Python) where
  -- Reading a call, whose arguments stay joinable if the call is no bad one.
  abbrev pub CallRead : Bool → ToolCall → Result Failure ToolCall → Type 0
  CallRead bad before (ok after) = bad ≡ false → IsJoinable before → IsJoinable after
  CallRead bad before (err (stream_error m)) = ⊥
  CallRead bad before (err other_error) = bad ≡ true

  good_text :
      (v : Json)
      → is_bad_text python v ≡ false
      → truthy python v ≡ true
      → (t : String) × (v ≡ str t)
  good_text (str t) good on = (t, refl)
  good_text null good on = absurd (cc on)
  good_text (bool b) good on = absurd (cc (good, on))
  good_text (num n) good on = absurd (cc (good, on))
  good_text (other_num l) good on = absurd (cc (good, on))
  good_text (arr items) good on = absurd (cc (good, on))
  good_text (obj fields) good on = absurd (cc (good, on))

  read_arguments-IsJoinable :
      (fn : Fields) (entry : ToolCall)
      → is_bad_text python (get_or "arguments" null fn) ≡ false
      → IsJoinable entry
      → IsJoinable (read_arguments python fn entry)
  unfolding read_arguments
  read_arguments-IsJoinable fn entry good h =
      if_rule IsJoinable (truthy python (get_or "arguments" null fn)) _ _
        (λ on.
          let text = good_text (get_or "arguments" null fn) good on in
          ap (λ v. is_some (join_values (entry.arguments ++ v ∷ []))) text.1
          ∙ join_values-str entry.arguments text.0 h)
        λ off. h

  add_name-CallRead :
      (v : Json) (fn : Fields) (entry : ToolCall)
      → truthy python v ≡ true
      → CallRead
          (is_bad_text python v || is_bad_text python (get_or "arguments" null fn))
          entry
          (add_name python v entry >>= λ named. ok (read_arguments python fn named))
  add_name-CallRead (str t) fn entry on =
      λ good h. read_arguments-IsJoinable fn (record entry { name = _ }) good h
  add_name-CallRead null fn entry on = absurd (cc on)
  add_name-CallRead (bool b) fn entry on = ground (arith, on)
  add_name-CallRead (num n) fn entry on = ground (arith, on)
  add_name-CallRead (other_num l) fn entry on = ground (arith, on)
  add_name-CallRead (arr items) fn entry on = ground (arith, on)
  add_name-CallRead (obj fields) fn entry on = ground (arith, on)

  read_function-CallRead :
      (v : Json) (entry : ToolCall)
      → CallRead (is_bad_function python v) entry (read_function python v entry)
  unfolding read_function read_name
  read_function-CallRead (obj fn) entry =
      if_rule
        (λ named.
          CallRead (is_bad_function python (obj fn)) entry
            (named >>= λ out. ok (read_arguments python fn out)))
        (truthy python (get_or "name" null fn)) _ _
        (add_name-CallRead (get_or "name" null fn) fn entry)
        λ off good h. read_arguments-IsJoinable fn entry (ground arith) h
  read_function-CallRead null entry = λ good h. h
  read_function-CallRead (bool b) entry = λ good h. h
  read_function-CallRead (num n) entry = λ good h. h
  read_function-CallRead (other_num l) entry = λ good h. h
  read_function-CallRead (str t) entry = λ good h. h
  read_function-CallRead (arr items) entry = λ good h. h

  CallRead-of :
      (bad : Bool) (before before' : ToolCall) (out : Result Failure ToolCall)
      → before.arguments ≡ before'.arguments
      → CallRead bad before out
      → CallRead bad before' out
  CallRead-of bad before before' (ok after) same f =
      λ good h. f good (ap (λ values. is_some (join_values values)) same ∙ h)
  CallRead-of bad before before' (err (stream_error m)) same f = f
  CallRead-of bad before before' (err other_error) same f = f

  pub read_call-CallRead :
      (call : Fields) (entry : ToolCall)
      → CallRead
          (is_bad_function python (get_or "function" null call))
          entry
          (read_call python call entry)
  unfolding read_call
  read_call-CallRead call entry =
      let id = get_or "id" null call in
      let type = get_or "type" null call in
      let with_id = if truthy python id then record entry { id = id } else entry in
      let typed = if truthy python type then record with_id { type = type } else with_id in
      CallRead-of _ typed entry _
        (if_rule {A = ToolCall} (λ e. e.arguments ≡ with_id.arguments) (truthy python type) _ _
            (λ e. refl) (λ e. refl)
          ∙ if_rule {A = ToolCall} (λ e. e.arguments ≡ entry.arguments) (truthy python id) _ _
              (λ e. refl) (λ e. refl))
        (read_function-CallRead (get_or "function" null call) typed)
