-- ===== src/Transform/ToAnthropic/Stream.antt =====
-- backend/voidswitch/services/transform.py, openai_stream_to_anthropic: the loop over the upstream's
-- chunks and the end of the stream, for a client that follows along.
use void_switch.Base.{
  ℕ, ◌≡◌, refl, ap, ◌∙◌, String, some, List, [], ◌∷◌, ◌++◌, if_rule, arith, inl, inr, Option-cases,
}
use void_switch.Base.Json.{Json, Fields, null, num, obj, end}
use void_switch.Transform.Sse.{Text}
use void_switch.Transform.Values.{Python, truthy, get_or, as_dict, text_eq}
use void_switch.Transform.ToAnthropic.{
  Progress, go_on, at_start, message_start, ping, message_delta, message_stop, read_usage,
  choice_of, on_reasoning, on_content, on_call, on_calls, calls_of, on_tool_calls, on_finish,
  finish_of, on_choice, on_chunk, done_mark, on_events, stop_tools, end_stream,
  openai_stream_to_anthropic,
}
use void_switch.Transform.ToAnthropic.Client.{
  running, unread, done, tool, read, read_on, read-block_stop,
}
use void_switch.Transform.ToAnthropic.Blocks.{
  tools_open, view_of, Inv, Good, Any, NoThinking, OnlyTools, OnText, bind-Good, send-Good,
  go_on-Good, Whole, bind-Whole, require-Good, open_is_tools, close_text-Good, open_text-Good,
}
use void_switch.Transform.ToAnthropic.Following.{
  close_thinking-Good, open_thinking-Good, send_thinking-Good, send_text-Good, open_tool-Good,
  send_arguments-Good,
}

-- What a chunk says of the end of the message touches no block.
noted-Good :
    (reason : String) (used made : Json) (s : Progress)
    → Inv s
    → Good
        (view_of s)
        Any
        (go_on (record s { finish_reason = reason; input_tokens = used; output_tokens = made }))
noted-Good reason used made s inv =
    send-Good (view_of s) Any [] _ refl
      (record {
        tools_below = inv.tools_below;
        one_at_most = inv.one_at_most;
        tools_before_text = inv.tools_before_text;
        thinking_first = inv.thinking_first;
      })
      tt

module _ (python : Python) (fresh_id : ℕ → Json) where
  on_reasoning-Good :
      (delta : Fields) (s : Progress) → Inv s → Good (view_of s) Any (on_reasoning python delta s)
  unfolding on_reasoning
  on_reasoning-Good delta s inv =
      if_rule (Good (view_of s) Any) (truthy python (get_or "reasoning_content" null delta)) _ _
        (λ e.
          bind-Good (view_of s) Any Any _ _ (open_thinking-Good s inv)
            λ s' inv' any. send_thinking-Good s' inv' _)
        λ e. go_on-Good Any s inv tt

  on_content-Good :
      (delta : Fields) (s : Progress) → Inv s → Good (view_of s) Any (on_content python delta s)
  unfolding on_content
  on_content-Good delta s inv =
      if_rule (Good (view_of s) Any) (truthy python (get_or "content" null delta)) _ _
        (λ e.
          bind-Good (view_of s) OnText Any _ _
            (bind-Good (view_of s) NoThinking OnText _ _ (close_thinking-Good s inv)
              λ s' inv'. open_text-Good s' inv')
            λ s' inv'. send_text-Good s' inv' _)
        λ e. go_on-Good Any s inv tt

  on_call-Good :
      (item : Json) (s : Progress) → Inv s → Good (view_of s) Any (on_call python fresh_id item s)
  unfolding on_call
  on_call-Good item s inv = require-Good Any s (as_dict item) _ λ call same.
      require-Good Any s (python.key_of (get_or "index" (num 0) call)) _ λ k keyed.
        bind-Good (view_of s) Any Any _ _ (open_tool-Good s inv fresh_id k call)
          λ s' inv' any. send_arguments-Good s' inv' python k call

  on_calls-Good :
      (items : List Json) (s : Progress)
      → Inv s
      → Good (view_of s) Any (on_calls python fresh_id items s)
  unfolding on_calls
  on_calls-Good [] s inv = go_on-Good Any s inv tt
  on_calls-Good (item ∷ items) s inv =
      bind-Good (view_of s) Any Any _ _ (on_call-Good item s inv)
        λ s' inv' any. on_calls-Good items s' inv'

  on_finish-Good :
      (choice : Fields) (s : Progress) → Inv s → Good (view_of s) Any (on_finish python choice s)
  unfolding on_finish
  on_finish-Good choice s inv =
      if_rule (Good (view_of s) Any) (truthy python (get_or "finish_reason" null choice)) _ _
        (λ e.
          require-Good Any s (finish_of python (get_or "finish_reason" null choice)) _
            λ reason same. noted-Good reason s.input_tokens s.output_tokens s inv)
        λ e. go_on-Good Any s inv tt

  on_choice-Good :
      (choice : Fields) (s : Progress)
      → Inv s
      → Good (view_of s) Any (on_choice python fresh_id choice s)
  unfolding on_choice on_tool_calls
  on_choice-Good choice s inv =
      require-Good Any s (as_dict (get_or "delta" (obj end) choice)) _ λ delta same.
        bind-Good (view_of s) Any Any _ _
          (bind-Good (view_of s) Any Any _ _
            (bind-Good (view_of s) Any Any _ _ (on_reasoning-Good delta s inv)
              λ s' inv' any. on_content-Good delta s' inv')
            λ s' inv' any.
              require-Good Any s' (calls_of python delta) _
                λ items found. on_calls-Good items s' inv')
          λ s' inv' any. on_finish-Good choice s' inv'

  read_usage-Good :
      (chunk : Fields) (s : Progress) → Inv s → Good (view_of s) Any (read_usage python chunk s)
  unfolding read_usage
  read_usage-Good chunk s inv =
      if_rule (Good (view_of s) Any) (truthy python (get_or "usage" null chunk)) _ _
        (λ e.
          require-Good Any s (as_dict (get_or "usage" null chunk)) _
            λ usage same. noted-Good s.finish_reason _ _ s inv)
        λ e. go_on-Good Any s inv tt

  on_chunk-Good :
      (value : Json) (s : Progress)
      → Inv s
      → Good (view_of s) Any (on_chunk python fresh_id value s)
  unfolding on_chunk
  on_chunk-Good value s inv = require-Good Any s (as_dict value) _ λ chunk same.
      bind-Good (view_of s) Any Any _ _ (read_usage-Good chunk s inv) λ s' inv' any.
        require-Good Any s' (choice_of python chunk) _ λ choice found. on_choice-Good choice s' inv'

  on_events-Good :
      (events : List Text) (s : Progress)
      → Inv s
      → Good (view_of s) Any (on_events python fresh_id events s)
  unfolding on_events
  on_events-Good [] s inv = go_on-Good Any s inv tt
  on_events-Good (event ∷ events) s inv =
      if_rule (Good (view_of s) Any) (text_eq event done_mark) _ _ (λ e. go_on-Good Any s inv tt)
        λ e. elim (Option-cases (python.loads event)) [
          | inl none_read ↦ rw none_read (on_events-Good events s inv)
          | inr (chunk, read_it) ↦ rw read_it (
              bind-Good (view_of s) Any Any _ _ (on_chunk-Good chunk s inv)
                λ s' inv' any. on_events-Good events s' inv')
        ]

read_end :
    (n : ℕ) (tools : List (ℕ × ℕ)) (reason : String) (used made : Json)
    → read_on
        (some (running n (tools_open tools)))
        (stop_tools tools ++ message_delta reason used made ∷ message_stop ∷ [])
      ≡ some (done n)
unfolding read
read_end n [] reason used made = refl
read_end n ((k, block) ∷ tools) reason used made =
    ap (λ o. read_on o (stop_tools tools ++ message_delta reason used made ∷ message_stop ∷ []))
      (read-block_stop n block ((block, tool) ∷ tools_open tools) (tools_open tools) (ground arith))
    ∙ read_end n tools reason used made

end_stream-Whole : (s : Progress) → Inv s → Whole (view_of s) (end_stream s)
unfolding end_stream
end_stream-Whole s inv =
    bind-Whole (view_of s) OnlyTools _ _
      (bind-Good (view_of s) NoThinking OnlyTools _ _ (close_thinking-Good s inv)
        λ s' inv'. close_text-Good s' inv')
      λ s' inv' only. record {
        after = done s'.next_block;
        followed =
            rw (open_is_tools s' inv' only.0 only.1)
              (read_end s'.next_block s'.tool_blocks s'.finish_reason _ _);
        ended = refl;
      }

started :
    (model : String)
    → read_on (some unread) (message_start model ∷ ping ∷ []) ≡ some (view_of at_start)
unfolding read
started model = refl

at_start-Inv : Inv at_start
at_start-Inv = record {
  tools_below = tt;
  one_at_most = λ t. refl;
  tools_before_text = λ t. tt;
  thinking_first = λ t. refl;
}

-- Whatever the upstream sends (chunks that are no JSON or of any shape, tool calls in any order and
-- mixed with text), an Anthropic client can read all that the translation sends: a message is
-- begun, each content block has the next index, deltas and stops meet an open block of their kind;
-- and the message is ended, with no block left open, exactly if the translation does not raise.
pub openai_stream_to_anthropic-Whole :
    (python : Python) (fresh_id : ℕ → Json) (model : String) (events : List Text)
    → Whole unread (openai_stream_to_anthropic python fresh_id model events)
unfolding openai_stream_to_anthropic
openai_stream_to_anthropic-Whole python fresh_id model events =
    bind-Whole unread Any _ _
      (bind-Good unread Any Any _ _
        (send-Good unread Any (message_start model ∷ ping ∷ []) at_start (started model)
          at_start-Inv tt)
        λ s inv any. on_events-Good python fresh_id events s inv)
      λ s inv any. end_stream-Whole s inv
