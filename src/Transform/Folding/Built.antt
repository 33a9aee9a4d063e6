-- ===== src/Transform/Folding/Built.antt =====
-- backend/voidswitch/services/transform.py, openai_events_to_response: the completion that is built
-- from the chunks after the loop.
use void_switch.Base.{
  String, Option, none, some, List, [], ◌∷◌, ◌++◌, Bool, true, false, not, if◌then◌else◌, str_eq,
}
use void_switch.Base.Sort.{sort_by}
use void_switch.Base.Results.{Result, err, ok, ◌>>=◌}
use void_switch.Base.Json.{Json, num, obj, end, field}
use void_switch.Transform.Sse.{Text}
use void_switch.Transform.Values.{Python, truthy}
use void_switch.Transform.Numbered.{ℤ, pos, le_int, Numbered, value_at, keys_of, distinct}
use void_switch.Transform.Folding.{
  Converters, Failure, stream_error, ToolCall, new_call, Head, Fold, before_chunks, needs,
  join_texts, join_values, fold_events,
}

pub record Message : Type 0 where
  pub content : Option String
  pub reasoning_content : Option String
  pub tool_calls : List (Json × Json × String × String)

pub record Choice : Type 0 where
  pub index : ℤ
  pub message : Message
  pub finish_reason : String

pub record Completion : Type 0 where
  pub head : Head
  pub choices : List Choice

-- text or None
abbrev pub or_none : String → Option String
or_none text = if str_eq text "" then none else some text

abbrev pub is_empty {ℓ} : {A : Type ℓ} → List A → Bool
is_empty [] = true
is_empty (x ∷ xs) = false

abbrev pub no_usage : Json
no_usage = obj (
    field "prompt_tokens" (num 0)
      (field "completion_tokens" (num 0) (field "total_tokens" (num 0) end)))

-- The keys id, created and model are in the dict since the first chunk: their setdefault is idle.
abbrev pub with_usage : Head → Head
with_usage head = elim head.usage [
  | none ↦ record head { usage = some no_usage }
  | some usage ↦ head
]

-- `fresh_id` is what _gen_id gives for a call.
module _ (python : Python) (fresh_id : Json) where
  unfoldable pub built_calls :
      Numbered ToolCall → List ℤ → Result Failure (List (Json × Json × String × String))
  built_calls entries [] = ok []
  built_calls entries (tidx ∷ indexes) =
      let entry = value_at new_call tidx entries in
      needs (join_values entry.arguments) λ arguments. built_calls entries indexes >>= λ calls. ok (
        (if truthy python entry.id then entry.id else fresh_id, entry.type, entry.name, arguments)
        ∷ calls)

  abbrev pub finish_for : Numbered String → ℤ → Bool → String
  finish_for finish_reasons idx has_calls =
      let finish = value_at "" idx finish_reasons in
      if str_eq finish "" then (if has_calls then "tool_calls" else "stop") else finish

  unfoldable pub built_choice : Fold → ℤ → Result Failure Choice
  unfolding built_calls
  built_choice s idx =
      let entries = value_at [] idx s.tool_calls in
      built_calls entries (sort_by le_int (keys_of entries)) >>= λ calls. ok (record {
        index = idx;
        message = record {
          content = or_none (join_texts (value_at [] idx s.contents));
          reasoning_content = or_none (join_texts (value_at [] idx s.reasonings));
          tool_calls = calls;
        };
        finish_reason = finish_for s.finish_reasons idx (not (is_empty calls));
      })

  unfoldable pub built_choices : Fold → List ℤ → Result Failure (List Choice)
  unfolding built_choice
  built_choices s [] = ok []
  built_choices s (idx ∷ indexes) =
      built_choice s idx >>= λ choice. built_choices s indexes >>= λ choices. ok (choice ∷ choices)

  -- `indexes or [0]`
  unfoldable pub indexes_of : Fold → List ℤ
  indexes_of s =
      let indexes = sort_by le_int (
        distinct (
          keys_of s.contents
          ++ (keys_of s.reasonings ++ (keys_of s.tool_calls ++ keys_of s.finish_reasons)))) in
      if is_empty indexes then pos 0 ∷ [] else indexes

  unfoldable pub build : Fold → Result Failure Completion
  unfolding built_choices indexes_of
  build s =
      if not s.saw_chunk
      then err (stream_error "upstream stream ended before any chunk")
      else elim s.resp [
        | none ↦ err (stream_error "upstream stream ended before any chunk")
        | some head ↦ built_choices s (indexes_of s) >>= λ choices.
            ok (record { head = with_usage head; choices = choices })
      ]

  module _ (converters : Converters) where
    -- The events are the data that iter_sse yields.
    unfoldable pub openai_events_to_response :
        (model : String) → List Text → Result Failure Completion
    unfolding fold_events build
    openai_events_to_response model events =
        fold_events python converters model events before_chunks >>= build
