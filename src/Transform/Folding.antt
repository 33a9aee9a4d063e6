-- ===== src/Transform/Folding.antt =====
-- backend/voidswitch/services/transform.py, openai_events_to_response: the chunks of an OpenAI
-- stream folded into one completion. A dict from numbers is a list of its keys and values.
pub mod Built
pub mod Told
pub mod Steps
pub mod Growth
pub mod Grown
pub mod Reads
pub mod Choices
pub mod Verdict
mod Tests
use Prim.Native.String.{◌++◌ as str_append}
use void_switch.Base.{
  ℕ, suc, ◌+◌, ◌≡◌, String, Option, none, some, List, [], ◌∷◌, ◌++◌, map, Bool, true, false, not,
  ◌&&◌, ◌||◌, ◌==◌, leb, if◌then◌else◌, str_eq,
}
use void_switch.Base.Results.{Result, err, ok, ◌>>=◌}
use void_switch.Base.Json.{Json, Fields, null, num, str, arr, obj, end, field, get}
use void_switch.Transform.Sse.{Text}
use void_switch.Transform.Values.{Python, truthy, get_or, or_default, as_dict, elements, text_eq}
use void_switch.Transform.ToAnthropic.{done_mark}
use void_switch.Transform.Numbered.{
  ℤ, pos, is_int, le_int, Numbered, value_at, update_at, keys_of, distinct,
}

-- Python's `str` and `int` of a value; `int` is none where it raises.
pub record Converters : Type 0 where
  pub str_of : Json → String
  pub int_of : Json → Option ℤ

-- UpstreamStreamError, or any other exception.
pub data Failure : Type 0 where
  stream_error : (message : String) → Failure
  other_error : Failure

pub record ToolCall : Type 0 where
  pub id : Json
  pub type : Json
  pub name : String
  pub arguments : List Json

-- The fields of the completion that are no constants.
pub record Head : Type 0 where
  pub id : Json
  pub created : Json
  pub model : Json
  pub usage : Option Json

-- The local variables of the fold; `resp` is the dict under construction.
pub record Fold : Type 0 where
  pub resp : Option Head
  pub contents : Numbered (List String)
  pub reasonings : Numbered (List String)
  pub tool_calls : Numbered (Numbered ToolCall)
  pub finish_reasons : Numbered String
  pub saw_chunk : Bool

abbrev pub before_chunks : Fold
before_chunks = record {
  resp = none;
  contents = [];
  reasonings = [];
  tool_calls = [];
  finish_reasons = [];
  saw_chunk = false;
}

abbrev pub Folded : Type 0
Folded = Result Failure Fold

-- A step whose value is none raises instead.
abbrev pub needs {ℓ κ} :
    {A : Type ℓ} {B : Type κ} → Option A → (A → Result Failure B) → Result Failure B
needs none next = err other_error
needs (some a) next = next a

abbrev pub append_at : ℤ → String → Numbered (List String) → Numbered (List String)
append_at i text d = update_at [] (λ texts. texts ++ text ∷ []) i d

abbrev pub new_call : ToolCall
new_call = record { id = null; type = str "function"; name = ""; arguments = [] }

abbrev pub join_texts : List String → String
join_texts [] = ""
join_texts (t ∷ ts) = str_append t (join_texts ts)

-- "".join(values), none where one of them is no text
abbrev pub join_values : List Json → Option String
join_values [] = some ""
join_values (str t ∷ values) = elim (join_values values) [
  | none ↦ none
  | some ts ↦ some (str_append t ts)
]
join_values (value ∷ values) = none

-- A value that is a text and not empty.
abbrev pub text_of : Json → Option String
text_of (str t) = if str_eq t "" then none else some t
text_of _ = none

abbrev pub with_content : ℤ → Option String → Fold → Fold
with_content idx none s = s
with_content idx (some content) s = record s { contents = append_at idx content s.contents }

abbrev pub with_reasoning : ℤ → Option String → Fold → Fold
with_reasoning idx none s = s
with_reasoning idx (some reasoning) s = record s {
  reasonings = append_at idx reasoning s.reasonings;
}

-- What a delta says before its tool calls.
abbrev pub with_texts : ℤ → Fields → Fold → Fold
with_texts idx delta s =
    with_reasoning idx (text_of (get_or "reasoning_content" null delta))
      (with_content idx (text_of (get_or "content" null delta)) s)

-- The data of an event; with none, with the mark of the end or with no JSON it is passed over.
abbrev pub parsed : Python → Text → Option Json
parsed python text = if text_eq text [] || text_eq text done_mark then none else python.loads text

-- The loop `for item in value` with `if not isinstance(item, dict): continue`: a dict gives its
-- keys and a text its characters, which are no dicts.
abbrev pub dicts_in : Json → Option (List Json)
dicts_in (arr items) = some (elements items)
dicts_in (obj fields) = some []
dicts_in (str t) = some []
dicts_in _ = none

module _ (python : Python) where
  -- value.get(key) or []
  abbrev pub listed : String → Fields → Option (List Json)
  listed key fields =
      if truthy python (get_or key null fields) then dicts_in (get_or key null fields) else some []

  -- str(message) or "upstream stream error"
  abbrev pub or_stream_error : String → String
  or_stream_error message = if str_eq message "" then "upstream stream error" else message

  abbrev pub message_of : Json → Json
  message_of (obj fields) = get_or "message" null fields
  message_of error = error

  unfoldable pub read_head : (model : String) → Fields → Option Head → Head
  read_head model chunk none = record {
    id = get_or "id" null chunk;
    created = get_or "created" null chunk;
    model = get_or "model" (str model) chunk;
    usage = none;
  }
  read_head model chunk (some head) = elim (get_or "model" null chunk) [
    | str m ↦ record head { model = str m }
    | _ ↦ head
  ]

  unfoldable pub read_counts : Fields → Head → Head
  read_counts chunk head = elim (get_or "usage" null chunk) [
    | obj usage ↦ record head { usage = some (obj usage) }
    | _ ↦ head
  ]

  -- entry["name"] += name
  abbrev pub add_name : Json → ToolCall → Result Failure ToolCall
  add_name (str name) entry = ok (record entry { name = str_append entry.name name })
  add_name name entry = err other_error

  unfoldable pub read_name : Fields → ToolCall → Result Failure ToolCall
  read_name fn entry =
      if truthy python (get_or "name" null fn)
      then add_name (get_or "name" null fn) entry
      else ok entry

  unfoldable pub read_arguments : Fields → ToolCall → ToolCall
  read_arguments fn entry =
      if truthy python (get_or "arguments" null fn)
      then record entry { arguments = entry.arguments ++ get_or "arguments" null fn ∷ [] }
      else entry

  unfoldable pub read_function : Json → ToolCall → Result Failure ToolCall
  unfolding read_name read_arguments
  read_function (obj fn) entry = read_name fn entry >>= λ named. ok (read_arguments fn named)
  read_function fn entry = ok entry

  -- The body of the loop over the calls of a delta, from `if call.get("id")` on.
  unfoldable pub read_call : Fields → ToolCall → Result Failure ToolCall
  unfolding read_function
  read_call call entry =
      let id = get_or "id" null call in
      let type = get_or "type" null call in
      let with_id = if truthy python id then record entry { id = id } else entry in
      let typed = if truthy python type then record with_id { type = type } else with_id in
      read_function (get_or "function" null call) typed

  -- choice.get("delta") or choice.get("message") or {}
  abbrev pub delta_of : Fields → Json
  delta_of choice =
      if truthy python (get_or "delta" null choice)
      then get_or "delta" null choice
      else if truthy python (get_or "message" null choice)
      then get_or "message" null choice
      else obj end

  module _ (converters : Converters) where
    unfoldable pub fold_tool_call : ℤ → Json → Fold → Folded
    unfolding read_call
    fold_tool_call idx (obj call) s =
        needs (converters.int_of (get_or "index" (num 0) call)) λ tidx.
          let entries = value_at [] idx s.tool_calls in
          read_call call (value_at new_call tidx entries) >>= λ entry. ok (record s {
            tool_calls = update_at [] (update_at entry (λ old. entry) tidx) idx s.tool_calls;
          })
    fold_tool_call idx call s = ok s

    unfoldable pub fold_tool_calls : ℤ → List Json → Fold → Folded
    unfolding fold_tool_call
    fold_tool_calls idx [] s = ok s
    fold_tool_calls idx (call ∷ calls) s = fold_tool_call idx call s >>= fold_tool_calls idx calls

    abbrev pub with_finish : ℤ → Fields → Fold → Fold
    with_finish idx choice s =
        if truthy python (get_or "finish_reason" null choice)
        then record s {
          finish_reasons =
              update_at "" (λ old. converters.str_of (get_or "finish_reason" null choice)) idx
                s.finish_reasons;
        }
        else s

    unfoldable pub fold_delta : ℤ → Fields → Json → Fold → Folded
    unfolding fold_tool_calls
    fold_delta idx choice (obj delta) s = needs (listed "tool_calls" delta) λ calls.
        fold_tool_calls idx calls (with_texts idx delta s) >>= λ s'. ok (with_finish idx choice s')
    fold_delta idx choice delta s = ok s

    unfoldable pub fold_choice : Json → Fold → Folded
    unfolding fold_delta
    fold_choice (obj choice) s =
        needs (converters.int_of (get_or "index" (num 0) choice))
          λ idx. fold_delta idx choice (delta_of choice) s
    fold_choice choice s = ok s

    unfoldable pub fold_choices : List Json → Fold → Folded
    unfolding fold_choice
    fold_choices [] s = ok s
    fold_choices (choice ∷ choices) s = fold_choice choice s >>= fold_choices choices

    -- The body of the loop after json.loads.
    unfoldable pub fold_chunk : (model : String) → Json → Fold → Folded
    unfolding fold_choices read_head read_counts
    fold_chunk model value s = needs (as_dict value) λ chunk.
        let error = get_or "error" null chunk in
        if truthy python error
        then err (stream_error (or_stream_error (converters.str_of (message_of error))))
        else needs (listed "choices" chunk) λ choices. fold_choices choices (record s {
          saw_chunk = true;
          resp = some (read_counts chunk (read_head model chunk s.resp));
        })

    unfoldable pub fold_events : (model : String) → List Text → Fold → Folded
    unfolding fold_chunk
    fold_events model [] s = ok s
    fold_events model (text ∷ events) s = elim (parsed python text) [
      | none ↦ fold_events model events s
      | some chunk ↦ fold_chunk model chunk s >>= fold_events model events
    ]
