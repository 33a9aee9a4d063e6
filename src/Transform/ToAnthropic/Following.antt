-- ===== src/Transform/ToAnthropic/Following.antt =====
-- backend/voidswitch/services/transform.py, openai_stream_to_anthropic: each step of the generator
-- sends what a client can follow, and the whole stream ends the message.
use mathlib.Core.List.{append-nil}
use void_switch.Base.{
  ℕ, ◌≡◌, refl, ap, ◌∙◌, some, List, [], ◌∷◌, ◌++◌, true, false, if_rule, All-append, All-map,
  arith, is_some,
}
use void_switch.Base.Json.{Json, Fields, obj, end}
use void_switch.Transform.Values.{Python, truthy, get_or, as_dict}
use void_switch.Transform.ToAnthropic.{
  Progress, close_thinking, open_thinking, send_thinking, send_text, begin_tool, start_tool,
  open_tool, block_of, thinking_block, tool_block, text_delta, thinking_delta, signature_delta,
  input_json_delta, arguments_of, send_arguments, may_think, Delta, block_delta, block_stop,
}
use void_switch.Transform.ToAnthropic.Client.{
  Kind, thinking, text, tool, read, read_on, accepts, takes, read-block_start, read-block_stop,
  read-block_delta,
}
use void_switch.Transform.ToAnthropic.Blocks.{
  tools_open, blocks_open, view_of, Inv, Good, Any, NoThinking, OnlyTools, OnText, bind-Good,
  send-Good, go_on-Good, open_is_text, open_is_thinking, open_is_tools, accepts-last, require-Good,
  close_text-Good,
}

module _ (s : Progress) (inv : Inv s) where
  read_thinking :
      (delta : Delta)
      → s.thinking_open ≡ true
      → takes thinking delta ≡ true
      → read (view_of s) (block_delta s.thinking_index delta) ≡ some (view_of s)
  read_thinking delta e h = rw (open_is_thinking s inv e) (
      read-block_delta s.next_block s.thinking_index ((s.thinking_index, thinking) ∷ []) delta
        (ground arith))

  pub close_thinking-Good : Good (view_of s) NoThinking (close_thinking s)
  unfolding close_thinking
  close_thinking-Good =
      if_rule (Good (view_of s) NoThinking) s.thinking_open _ _
        (λ e.
          send-Good (view_of s) NoThinking _ _
            (ap (λ o. read_on o (block_stop s.thinking_index ∷ []))
                (read_thinking signature_delta e refl)
              ∙ rw (open_is_thinking s inv e, inv.thinking_first e, inv.one_at_most e)
                  (read-block_stop s.next_block s.thinking_index ((s.thinking_index, thinking) ∷ [])
                    [] (ground arith)))
            (record {
              tools_below = inv.tools_below;
              one_at_most = λ t. absurd (cc t);
              tools_before_text = inv.tools_before_text;
              thinking_first = λ t. absurd (cc t);
            })
            refl)
        λ e. go_on-Good NoThinking s inv e

  may_think_lem :
      may_think s ≡ true → (s.thinking_open ≡ false) × (s.text_open ≡ false) × (s.tool_blocks ≡ [])
  may_think_lem h = ground arith

  pub open_thinking-Good : Good (view_of s) Any (open_thinking s)
  unfolding open_thinking
  open_thinking-Good =
      if_rule (Good (view_of s) Any) (may_think s) _ _
        (λ e.
          let first = may_think_lem e in
          send-Good (view_of s) Any _ _
            (rw (first.0, first.1, first.2) (read-block_start s.next_block 0 [] thinking_block))
            (record {
              tools_below = rw first.2 tt;
              one_at_most = λ t. first.1;
              tools_before_text = λ t. rw first.2 tt;
              thinking_first = λ t. first.2;
            })
            tt)
        λ e. go_on-Good Any s inv tt

  pub send_thinking-Good : (j : Json) → Good (view_of s) Any (send_thinking j s)
  unfolding send_thinking
  send_thinking-Good j =
      if_rule (Good (view_of s) Any) s.thinking_open _ _
        (λ e. send-Good (view_of s) Any _ s (read_thinking (thinking_delta j) e refl) inv tt)
        λ e. go_on-Good Any s inv tt

  pub send_text-Good : (j : Json) → OnText s → Good (view_of s) Any (send_text j s)
  unfolding send_text
  send_text-Good j e =
      send-Good (view_of s) Any _ s
        (rw (open_is_text s inv e) (
          read-block_delta s.next_block s.text_index _ (text_delta j) (
            accepts-last s.text_index text (text_delta j) s.tool_blocks (inv.tools_before_text e))))
        inv tt

tools_open-append :
    (blocks : List (ℕ × ℕ)) (k block : ℕ)
    → tools_open (blocks ++ (k, block) ∷ []) ≡ tools_open blocks ++ (block, tool) ∷ []
tools_open-append [] k block = refl
tools_open-append ((j, b) ∷ blocks) k block = ap (◌∷◌ (b, tool)) (tools_open-append blocks k block)

accepts_tool :
    (k block : ℕ) (blocks : List (ℕ × ℕ)) (rest : List (ℕ × Kind)) (args : Json)
    → block_of k blocks ≡ some block
    → accepts block (input_json_delta args) (tools_open blocks ++ rest) ≡ true
accepts_tool k block [] rest args h = cc
accepts_tool k block ((j, b) ∷ blocks) rest args h =
    ground (arith, accepts_tool k block blocks rest args)

module _ (s : Progress) (inv : Inv s) where
  begin_tool-Good :
      (id name : Json) (k : ℕ) → OnlyTools s → Good (view_of s) Any (begin_tool id name k s)
  unfolding begin_tool
  begin_tool-Good id name k only =
      send-Good (view_of s) Any _ _
        (rw
          (
            open_is_tools s inv only.0 only.1,
            only.0,
            only.1,
            tools_open-append s.tool_blocks k s.next_block,
            append-nil (tools_open s.tool_blocks ++ (s.next_block, tool) ∷ []),
          )
          (read-block_start s.next_block 0 (tools_open s.tool_blocks) (tool_block id name)))
        (record {
          tools_below =
              All-append _ s.tool_blocks ((k, s.next_block) ∷ [])
                (All-map _ _ s.tool_blocks (λ b below. omega arith) inv.tools_below)
                (omega arith, tt);
          one_at_most = λ t. only.1;
          tools_before_text = λ t. absurd (cc (t, only.1));
          thinking_first = λ t. absurd (cc (t, only.0));
        })
        tt

module _ (s : Progress) (inv : Inv s) where
  pub open_tool-Good :
      (fresh_id : ℕ → Json) (k : ℕ) (call : Fields)
      → Good (view_of s) Any (open_tool fresh_id k call s)
  unfolding open_tool start_tool
  open_tool-Good fresh_id k call =
      if_rule (Good (view_of s) Any) (is_some (block_of k s.tool_blocks)) _ _
        (λ e. go_on-Good Any s inv tt)
        λ e.
          bind-Good (view_of s) OnlyTools Any _ _
            (bind-Good (view_of s) NoThinking OnlyTools _ _ (close_thinking-Good s inv)
              λ s' inv'. close_text-Good s' inv')
            λ s' inv' only.
              require-Good Any s' (as_dict (get_or "function" (obj end) call)) _
                λ fn same. begin_tool-Good s' inv' _ _ k only

  pub send_arguments-Good :
      (python : Python) (k : ℕ) (call : Fields)
      → Good (view_of s) Any (send_arguments python k call s)
  unfolding send_arguments
  send_arguments-Good python k call = require-Good Any s (arguments_of python call) _ λ args same.
      if_rule (Good (view_of s) Any) (truthy python args) _ _
        (λ e. require-Good Any s (block_of k s.tool_blocks) _ λ block found.
          send-Good (view_of s) Any (block_delta block (input_json_delta args) ∷ []) s
            (read-block_delta s.next_block block (blocks_open s) (input_json_delta args)
              (accepts_tool k block s.tool_blocks _ args found))
            inv tt)
        λ e. go_on-Good Any s inv tt
