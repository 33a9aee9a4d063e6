-- ===== src/Transform/ToAnthropic.antt =====
-- backend/voidswitch/services/transform.py, openai_stream_to_anthropic: the stream of an OpenAI
-- upstream as events for an Anthropic client. A step appends to what is sent, and its state is none
-- once the code has raised.
pub mod Client
pub mod Blocks
pub mod Following
pub mod Stream
mod Tests
use void_switch.Base.{
  ℕ, suc, ◌+◌, ◌≡◌, refl, String, Option, none, some, List, [], ◌∷◌, ◌++◌, map, Bool, true, false,
  ◌&&◌, ◌||◌, not, ◌==◌, if◌then◌else◌, str_eq, is_some,
}
use void_switch.Base.Json.{Json, Items, Fields, null, num, str, arr, obj, nil, cons, end, get}
use void_switch.Transform.Sse.{Text}
use void_switch.Transform.Values.{Python, truthy, get_or, or_default, as_dict, elements, text_eq}

pub data Block : Type 0 where
  text_block thinking_block : Block
  tool_block : (id name : Json) → Block

pub data Delta : Type 0 where
  text_delta : Json → Delta
  thinking_delta : Json → Delta
  signature_delta : Delta
  input_json_delta : Json → Delta

pub data Out : Type 0 where
  message_start : (model : String) → Out
  ping : Out
  block_start : ℕ → Block → Out
  block_delta : ℕ → Delta → Out
  block_stop : ℕ → Out
  message_delta : (stop_reason : String) (input_tokens output_tokens : Json) → Out
  message_stop : Out

-- The local variables of the generator; `tool_blocks` maps the key of a tool index to its block.
pub record Progress : Type 0 where
  pub text_open : Bool
  pub text_index : ℕ
  pub thinking_open : Bool
  pub thinking_index : ℕ
  pub tool_blocks : List (ℕ × ℕ)
  pub next_block : ℕ
  pub finish_reason : String
  pub input_tokens : Json
  pub output_tokens : Json

abbrev pub at_start : Progress
at_start = record {
  text_open = false;
  text_index = 0;
  thinking_open = false;
  thinking_index = 0;
  tool_blocks = [];
  next_block = 0;
  finish_reason = "stop";
  input_tokens = num 0;
  output_tokens = num 0;
}

pub record Step : Type 0 where
  pub output : List Out
  pub state : Option Progress

abbrev pub go_on : Progress → Step
go_on s = record { output = []; state = some s }

abbrev pub send : List Out → Progress → Step
send outs s = record { output = outs; state = some s }

abbrev pub raised : Step
raised = record { output = []; state = none }

infixl 5 ◌>>=◌
abbrev pub ◌>>=◌ : Step → (Progress → Step) → Step
m >>= next = elim m.state [
  | none ↦ m
  | some s ↦ record { output = m.output ++ (next s).output; state = (next s).state }
]

-- A step whose value is none raises instead.
abbrev pub require {ℓ} : {A : Type ℓ} → Option A → (A → Step) → Step
require none next = raised
require (some a) next = next a

-- _OPENAI_FINISH_TO_ANTHROPIC.get(reason, "end_turn")
unfoldable pub finish_to_anthropic : String → String
finish_to_anthropic reason =
    if str_eq reason "length"
    then "max_tokens"
    else if str_eq reason "tool_calls" || str_eq reason "function_call"
    then "tool_use"
    else "end_turn"

-- What is no text is no entry of that table; a list or a dict is not even a key.
abbrev pub finish_of : Python → Json → Option String
finish_of python (str reason) = some (finish_to_anthropic reason)
finish_of python other = elim (python.key_of other) [ none ↦ none | some k ↦ some "end_turn" ]

-- _close_thinking, with the flag that its callers put down
unfoldable pub close_thinking : Progress → Step
close_thinking s =
    if s.thinking_open
    then send (block_delta s.thinking_index signature_delta ∷ block_stop s.thinking_index ∷ [])
        (record s { thinking_open = false })
    else go_on s

unfoldable pub close_text : Progress → Step
close_text s =
    if s.text_open
    then send (block_stop s.text_index ∷ []) (record s { text_open = false })
    else go_on s

abbrev pub has_tools : Progress → Bool
has_tools s = elim s.tool_blocks [ [] ↦ false | block ∷ blocks ↦ true ]

abbrev pub may_think : Progress → Bool
may_think s = not s.thinking_open && (not s.text_open && not (has_tools s))

unfoldable pub open_thinking : Progress → Step
open_thinking s =
    if may_think s
    then send (block_start s.next_block thinking_block ∷ []) (record s {
      thinking_open = true;
      thinking_index = s.next_block;
      next_block = suc s.next_block;
    })
    else go_on s

unfoldable pub send_thinking : Json → Progress → Step
send_thinking reasoning s =
    if s.thinking_open
    then send (block_delta s.thinking_index (thinking_delta reasoning) ∷ []) s
    else go_on s

unfoldable pub open_text : Progress → Step
open_text s =
    if s.text_open
    then go_on s
    else send (block_start s.next_block text_block ∷ [])
        (record s { text_open = true; text_index = s.next_block; next_block = suc s.next_block })

unfoldable pub send_text : Json → Progress → Step
send_text content s = send (block_delta s.text_index (text_delta content) ∷ []) s

abbrev pub block_of : ℕ → List (ℕ × ℕ) → Option ℕ
block_of k [] = none
block_of k ((j, block) ∷ blocks) =
    let rest = block_of k blocks in if j == k then some block else rest

-- `tool_blocks[oai_idx] = next_block` up to `next_block += 1`; `fresh_id` is what _gen_id gives.
unfoldable pub begin_tool : (id name : Json) → ℕ → Progress → Step
begin_tool id name k s = send (block_start s.next_block (tool_block id name) ∷ []) (record s {
  tool_blocks = s.tool_blocks ++ (k, s.next_block) ∷ [];
  next_block = suc s.next_block;
})

unfoldable pub start_tool : (fresh_id : ℕ → Json) → ℕ → Fields → Progress → Step
unfolding begin_tool
start_tool fresh_id k call s =
    require (as_dict (get_or "function" (obj end) call))
      λ fn. begin_tool (get_or "id" (fresh_id s.next_block) call) (get_or "name" (str "") fn) k s

unfoldable pub open_tool : (fresh_id : ℕ → Json) → ℕ → Fields → Progress → Step
unfolding close_thinking close_text start_tool
open_tool fresh_id k call s =
    if is_some (block_of k s.tool_blocks)
    then go_on s
    else close_thinking s >>= close_text >>= start_tool fresh_id k call

abbrev pub done_mark : Text
done_mark = b'[' ∷ b'D' ∷ b'O' ∷ b'N' ∷ b'E' ∷ b']' ∷ []

abbrev pub stop_tools : List (ℕ × ℕ) → List Out
stop_tools [] = []
stop_tools ((k, block) ∷ blocks) = block_stop block ∷ stop_tools blocks

-- After the loop.
unfoldable pub end_stream : Progress → Step
unfolding close_thinking close_text
end_stream s = close_thinking s >>= close_text >>= λ s'.
    send
      (stop_tools s'.tool_blocks
        ++ message_delta s'.finish_reason s'.input_tokens s'.output_tokens ∷ message_stop ∷ [])
      s'

module _ (python : Python) where
  unfoldable pub read_usage : Fields → Progress → Step
  read_usage chunk s =
      if truthy python (get_or "usage" null chunk)
      then (require (as_dict (get_or "usage" null chunk)) λ usage. go_on (record s {
        input_tokens = get_or "prompt_tokens" (num 0) usage;
        output_tokens = get_or "completion_tokens" (num 0) usage;
      }))
      else go_on s

  abbrev first_of : Json → Option Fields
  first_of (arr (cons choice items)) = as_dict choice
  first_of _ = none

  -- (chunk.get("choices") or [{}])[0]
  unfoldable pub choice_of : Fields → Option Fields
  choice_of chunk =
      if truthy python (get_or "choices" null chunk)
      then first_of (get_or "choices" null chunk)
      else some end

  unfoldable pub on_reasoning : Fields → Progress → Step
  unfolding open_thinking send_thinking
  on_reasoning delta s =
      if truthy python (get_or "reasoning_content" null delta)
      then open_thinking s >>= send_thinking (get_or "reasoning_content" null delta)
      else go_on s

  unfoldable pub on_content : Fields → Progress → Step
  unfolding close_thinking open_text send_text
  on_content delta s =
      if truthy python (get_or "content" null delta)
      then close_thinking s >>= open_text >>= send_text (get_or "content" null delta)
      else go_on s

  -- (call.get("function") or {}).get("arguments")
  unfoldable pub arguments_of : Fields → Option Json
  arguments_of call =
      if truthy python (get_or "function" null call)
      then elim (as_dict (get_or "function" null call)) [
        | none ↦ none
        | some fn ↦ some (get_or "arguments" null fn)
      ]
      else some null

  unfoldable pub send_arguments : ℕ → Fields → Progress → Step
  unfolding arguments_of
  send_arguments k call s = require (arguments_of call) λ args.
      if truthy python args
      then (require (block_of k s.tool_blocks)
          λ block. send (block_delta block (input_json_delta args) ∷ []) s)
      else go_on s

  -- `for call in delta.get("tool_calls") or []`. A dict gives its keys, a text its characters:
  -- the loop's body raises on either.
  abbrev pub calls_of : Fields → Option (List Json)
  calls_of delta =
      if truthy python (get_or "tool_calls" null delta)
      then elim (get_or "tool_calls" null delta) [ arr items ↦ some (elements items) | _ ↦ none ]
      else some []

  unfoldable pub on_finish : Fields → Progress → Step
  unfolding finish_to_anthropic
  on_finish choice s =
      if truthy python (get_or "finish_reason" null choice)
      then (require (finish_of python (get_or "finish_reason" null choice))
          λ reason. go_on (record s { finish_reason = reason }))
      else go_on s

  module _ (fresh_id : ℕ → Json) where
    unfoldable pub on_call : Json → Progress → Step
    unfolding open_tool send_arguments
    on_call item s = require (as_dict item) λ call.
        require (python.key_of (get_or "index" (num 0) call))
          λ k. open_tool fresh_id k call s >>= send_arguments k call

    unfoldable pub on_calls : List Json → Progress → Step
    unfolding on_call
    on_calls [] s = go_on s
    on_calls (item ∷ items) s = on_call item s >>= on_calls items

    unfoldable pub on_tool_calls : Fields → Progress → Step
    unfolding on_calls
    on_tool_calls delta s = require (calls_of delta) (λ items. on_calls items s)

    -- What the loop does with a chunk after its usage.
    unfoldable pub on_choice : Fields → Progress → Step
    unfolding on_reasoning on_content on_tool_calls on_finish
    on_choice choice s = require (as_dict (get_or "delta" (obj end) choice)) λ delta.
        on_reasoning delta s >>= on_content delta >>= on_tool_calls delta >>= on_finish choice

    unfoldable pub on_chunk : Json → Progress → Step
    unfolding read_usage choice_of on_choice
    on_chunk value s = require (as_dict value) λ chunk.
        read_usage chunk s >>= λ s'. require (choice_of chunk) (λ choice. on_choice choice s')

    -- The loop over the events' data, up to the mark of the end.
    unfoldable pub on_events : List Text → Progress → Step
    unfolding on_chunk
    on_events [] s = go_on s
    on_events (data_text ∷ events) s =
        if text_eq data_text done_mark then go_on s else elim (python.loads data_text) [
          | none ↦ on_events events s
          | some chunk ↦ on_chunk chunk s >>= on_events events
        ]

    unfoldable pub openai_stream_to_anthropic : (model : String) → List Text → Step
    unfolding on_events end_stream
    openai_stream_to_anthropic model events =
        send (message_start model ∷ ping ∷ []) at_start >>= on_events events >>= end_stream
