-- ===== src/Transform/ToAnthropic/Tests.antt =====
-- A stream of OpenAI chunks translated for an Anthropic client.
use void_switch.Base.{
  ℕ, zero, suc, String, ◌≡◌, refl, Option, none, some, is_some, true, false, List, [], ◌∷◌,
}
use void_switch.Transform.Sse.{Text}
use void_switch.Base.Json.{Json, Fields, num, str, arr, obj, nil, cons, end, field, get}
use void_switch.Transform.Values.{Python}
use void_switch.Transform.ToAnthropic.{
  Out, openai_stream_to_anthropic, message_start, block_start, block_delta, block_stop,
  thinking_block, text_block, tool_block, thinking_delta, signature_delta, text_delta,
  input_json_delta, message_delta, message_stop, done_mark,
}
use void_switch.Transform.ToAnthropic.Client.{unread}
use void_switch.Transform.ToAnthropic.Blocks.{Whole}
use void_switch.Transform.ToAnthropic.Stream.{openai_stream_to_anthropic-Whole}
use void_switch.Transform.Sse.{Text}

abbrev of_text : String → Json → Fields
of_text key value = field key value end

-- A chunk whose delta has one field.
abbrev chunk_of : Fields → Json
chunk_of delta = obj (of_text "choices" (arr (cons (obj (of_text "delta" (obj delta))) nil)))

abbrev call_chunk : Json
call_chunk = chunk_of (
    of_text "tool_calls" (
      arr (
        cons
          (obj (
            field "id" (str "c1")
              (of_text "function" (obj (field "name" (str "f") (of_text "arguments" (str "{}")))))))
          nil)))

abbrev samples : List Json
samples =
    chunk_of (of_text "reasoning_content" (str "hm"))
    ∷ chunk_of (of_text "content" (str "hello"))
    ∷ call_chunk
    ∷ obj (of_text "choices" (arr (cons (obj (of_text "finish_reason" (str "tool_calls"))) nil)))
    ∷ arr nil
    ∷ []

abbrev nth : ℕ → List Json → Option Json
nth n [] = none
nth zero (j ∷ js) = some j
nth (suc n) (j ∷ js) = nth n js

-- The events' data are single numbers here, each the place of a chunk.
abbrev numbered : Text → Option Json
numbered [] = none
numbered (n ∷ rest) = nth n samples

abbrev python : Python
python = record { loads = numbered; is_nonzero = λ literal. true; key_of = λ j. some 0 }

abbrev ids : ℕ → Json
ids n = str "toolu"

abbrev upstream : List Text
upstream =
    (0 ∷ []) ∷ (1 ∷ []) ∷ (7 ∷ []) ∷ (2 ∷ []) ∷ (1 ∷ []) ∷ (2 ∷ []) ∷ (3 ∷ []) ∷ done_mark ∷ []

translated :
    (openai_stream_to_anthropic python ids "m" upstream).output
    ≡ message_start "m"
      ∷ Out.ping
      ∷ block_start 0 thinking_block
      ∷ block_delta 0 (thinking_delta (str "hm"))
      ∷ block_delta 0 signature_delta
      ∷ block_stop 0
      ∷ block_start 1 text_block
      ∷ block_delta 1 (text_delta (str "hello"))
      ∷ block_stop 1
      ∷ block_start 2 (tool_block (str "c1") (str "f"))
      ∷ block_delta 2 (input_json_delta (str "{}"))
      ∷ block_start 3 text_block
      ∷ block_delta 3 (text_delta (str "hello"))
      ∷ block_delta 2 (input_json_delta (str "{}"))
      ∷ block_stop 3
      ∷ block_stop 2
      ∷ message_delta "tool_use" (num 0) (num 0)
      ∷ message_stop
      ∷ []
unfolding openai_stream_to_anthropic get
translated = refl

-- A chunk that is no object raises, and the message is not ended.
translation_raises :
    is_some (openai_stream_to_anthropic python ids "m" ((1 ∷ []) ∷ (4 ∷ []) ∷ [])).state ≡ false
unfolding openai_stream_to_anthropic get
translation_raises = refl

-- Without a end_stream reason the stop reason is "stop", which the map of reasons never gives.
no_finish_reason :
    (openai_stream_to_anthropic python ids "m" []).output
    ≡ message_start "m" ∷ Out.ping ∷ message_delta "stop" (num 0) (num 0) ∷ message_stop ∷ []
unfolding openai_stream_to_anthropic get
no_finish_reason = refl

openai_stream_to_anthropic-Whole_example :
    Whole unread (openai_stream_to_anthropic python ids "m" upstream)
openai_stream_to_anthropic-Whole_example = openai_stream_to_anthropic-Whole python ids "m" upstream
