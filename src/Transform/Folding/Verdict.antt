-- ===== src/Transform/Folding/Verdict.antt =====
-- What the whole fold of an OpenAI stream gives, and when it fails.
use void_switch.Base.{
  ◌≡◌, refl, ap, ◌∙◌, String, Option, none, some, List, true, false, not, any, is_some, All,
  Bool-cases, inl, inr, if_rule, arith, All-map, ◌⊎◌,
}
use void_switch.Base.Results.{Result, err, ok, ◌>>=◌}
use void_switch.Base.Json.{Json}
use void_switch.Transform.Sse.{Text}
use void_switch.Transform.Values.{Python}
use void_switch.Transform.Numbered.{ℤ, is_int, value_at}
use void_switch.Transform.Folding.{
  Converters, Failure, stream_error, other_error, Fold, Folded, Head, fold_events, before_chunks,
  join_texts,
}
use void_switch.Transform.Folding.Told.{said, is_bad_chunk, first_error, chunks_of}
use void_switch.Transform.Folding.Choices.{
  Describes, IsBuilt, built_choices-IsBuilt, indexes_of-any,
}
use void_switch.Transform.Folding.Built.{
  with_usage, Choice, Completion, or_none, is_empty, built_choices, indexes_of, build,
  openai_events_to_response,
}
use void_switch.Transform.Folding.Reads.{Read, IsReported, Reads, fold_events-Reads}

module _ (python : Python) (converters : Converters) where
  -- A choice says what the chunks said to it.
  abbrev pub Tells : List Json → Choice → Type 0
  Tells cs c =
      (c.message.content ≡ or_none (join_texts (said python converters "content" c.index cs)))
      × (c.message.reasoning_content
          ≡ or_none (join_texts (said python converters "reasoning_content" c.index cs)))

  abbrev pub Verdict : List Json → Result Failure Completion → Type 0
  Verdict cs (ok completion) =
      (first_error python cs ≡ none)
      × (is_empty cs ≡ false)
      × All (Tells cs) completion.choices
      × ((i : ℤ)
          → is_empty (said python converters "content" i cs) ≡ false
          → any (λ c. is_int c.index i) completion.choices ≡ true)
  Verdict cs (err (stream_error m)) =
      ((is_empty cs ≡ true) × (m ≡ "upstream stream ended before any chunk"))
      ⊎ IsReported python converters cs m
  Verdict cs (err other_error) = any (is_bad_chunk python converters) cs ≡ true

  module _ (fresh_id : Json) where
    built-Verdict :
        (cs : List Json) (t : Fold) (head : Head) (out : Result Failure (List Choice))
        → Read python converters cs before_chunks t
        → is_empty cs ≡ false
        → IsBuilt t (indexes_of python fresh_id t) out
        → Verdict cs (out >>= λ choices. ok (record { head = with_usage head; choices = choices }))
    unfolding value_at
    built-Verdict cs t head (ok choices) g some_chunk (tells, covers) = (
      g.quiet,
      some_chunk,
      All-map (Describes t) (Tells cs) choices
          (λ c (said_it, thought_it). (
            said_it ∙ ap (λ texts. or_none (join_texts texts)) (g.contents c.index),
            thought_it ∙ ap (λ texts. or_none (join_texts texts)) (g.reasonings c.index),
          ))
          tells,
      λ i heard.
          covers i
          ∙ indexes_of-any python fresh_id i t
              (ap (λ texts. is_empty texts) (g.contents i) ∙ heard),
    )
    built-Verdict cs t head (err (stream_error m)) g some_chunk b = absurd b
    built-Verdict cs t head (err other_error) g some_chunk b =
        elim (Bool-cases (any (is_bad_chunk python converters) cs)) [
          | inl bad ↦ bad
          | inr fine ↦ absurd (b (g.sound fine tt))
        ]

    build-Verdict :
        (cs : List Json) (t : Fold)
        → Read python converters cs before_chunks t
        → Verdict cs (build python fresh_id t)
    unfolding build
    build-Verdict cs t g =
        if_rule (Verdict cs) (not t.saw_chunk) _ _ (λ none_seen. inl (ground (arith, g.saw), refl))
          λ seen. headed t.resp (g.started refl)
      where
        headed :
            (o : Option Head)
            → t.saw_chunk ≡ is_some o
            → Verdict cs (elim o [
              | none ↦ err (stream_error "upstream stream ended before any chunk")
              | some head ↦
                  built_choices python fresh_id t (indexes_of python fresh_id t) >>= λ choices.
                  ok (record { head = with_usage head; choices = choices })
            ])
        headed none e = inl (ground (arith, g.saw), refl)
        headed (some head) e =
            built-Verdict cs t head _ g (ground (arith, g.saw))
              (built_choices-IsBuilt python fresh_id t (indexes_of python fresh_id t))

    -- The fold of a stream gives a completion only if some event holds JSON and no such chunk holds
    -- an error; then each choice has the texts and thoughts that the chunks say under its index,
    -- joined in order, and each index with a text has a choice. Else it raises UpstreamStreamError
    -- with the fixed message where there is no chunk, or with the message of the first error; or,
    -- with any other exception, it met a chunk that is ill-formed.
    pub openai_events_to_response-Verdict :
        (model : String) (events : List Text)
        → Verdict
            (chunks_of python events)
            (openai_events_to_response python fresh_id converters model events)
    unfolding openai_events_to_response
    openai_events_to_response-Verdict model events =
        concluded (fold_events python converters model events before_chunks)
          (fold_events-Reads python converters model events before_chunks)
      where
        concluded :
            (out : Folded)
            → Reads python converters (chunks_of python events) before_chunks out
            → Verdict (chunks_of python events) (out >>= build python fresh_id)
        concluded (ok t) g = build-Verdict (chunks_of python events) t g
        concluded (err (stream_error m)) g = inr g
        concluded (err other_error) g = g
