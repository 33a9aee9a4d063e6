-- ===== src/Transform/Folding/Grown.antt =====
-- What the choices of a chunk add to the fold of an OpenAI stream.
use void_switch.Base.{
  ◌≡◌, refl, ap, ◌∙◌, sym, String, Option, none, some, List, [], ◌∷◌, ◌++◌, Bool, true, false, ◌||◌,
  if◌then◌else◌, any, if_rule, arith,
}
use mathlib.Core.List.{append-nil}
use void_switch.Base.Results.{Result, err, ok, ◌>>=◌}
use void_switch.Base.Json.{Json, Fields, null, num, other_num, bool, arr, str, obj}
use void_switch.Transform.Values.{Python, truthy, get_or}
use void_switch.Transform.Numbered.{ℤ, is_int, value_at, update_at}
use void_switch.Transform.Folding.{
  Converters, Failure, stream_error, other_error, ToolCall, new_call, Fold, text_of, listed,
  delta_of, fold_tool_call, fold_tool_calls, with_content, with_reasoning, with_texts, with_finish,
  fold_delta, fold_choice, fold_choices,
}
use void_switch.Transform.Folding.Told.{
  one_text, said_by, at_index, said_in_choice, said_in_choices, is_bad_function, is_bad_call,
  is_bad_list-none, is_bad_delta, is_bad_choice, append_at-said,
}
use void_switch.Transform.Folding.Steps.{
  AllValues, AllValues-value_at, AllValues-update_at, IsJoinable, CallRead, read_call-CallRead,
}
use void_switch.Transform.Folding.Growth.{
  Grown, Grows, nothing, Grown-refl, needs_rule, Grown-Grows, Grows-bind, Grows-of,
}

module _ (python : Python) (converters : Converters) where
  set_call-Grows :
      (idx tidx : ℤ) (bad : Bool) (s : Fold) (out : Result Failure ToolCall)
      → CallRead python bad (value_at new_call tidx (value_at [] idx s.tool_calls)) out
      → Grows nothing nothing bad s (
          out >>= λ entry. ok (record s {
            tool_calls = update_at [] (update_at entry (λ old. entry) tidx) idx s.tool_calls;
          }))
  set_call-Grows idx tidx bad s (ok entry) f = record {
    contents = λ i. sym (append-nil _);
    reasonings = λ i. sym (append-nil _);
    resp_same = refl;
    saw_same = refl;
    sound = λ good h.
        let e : IsJoinable entry = f good (
          AllValues-value_at IsJoinable new_call tidx _ refl
            (AllValues-value_at (AllValues IsJoinable) [] idx s.tool_calls tt h)) in
        AllValues-update_at (AllValues IsJoinable) [] (update_at entry (λ old. entry) tidx) idx
          s.tool_calls (AllValues-update_at IsJoinable entry (λ old. entry) tidx [] e (λ a k. e) tt)
          (λ d k. AllValues-update_at IsJoinable entry (λ old. entry) tidx d e (λ a l. e) k) h;
  }
  set_call-Grows idx tidx bad s (err (stream_error m)) f = f
  set_call-Grows idx tidx bad s (err other_error) f = f

  fine :
      (bad : Bool) (s t : Fold)
      → Grown nothing nothing false s t
      → Grows nothing nothing bad s (ok t)
  fine bad s t g =
      Grows-of nothing nothing nothing nothing false bad s (ok t) (λ i. refl) (λ i. refl)
        (λ e. absurd (cc e)) g

  fold_tool_call-Grows :
      (idx : ℤ) (item : Json) (s : Fold)
      → Grows nothing nothing
          (is_bad_call python converters item)
          s
          (fold_tool_call python converters idx item s)
  unfolding fold_tool_call
  fold_tool_call-Grows idx (obj call) s =
      needs_rule (Grows nothing nothing (is_bad_call python converters (obj call)) s)
        (converters.int_of (get_or "index" (num 0) call)) _ (λ e. rw e refl)
        λ tidx e.
          Grows-of nothing nothing nothing nothing
            (is_bad_function python (get_or "function" null call)) _ s _ (λ i. refl) (λ i. refl)
            (λ bad. ground arith)
            (set_call-Grows idx tidx _ s _ (
              read_call-CallRead python call
                (value_at new_call tidx (value_at [] idx s.tool_calls))))
  fold_tool_call-Grows idx null s = Grown-refl s
  fold_tool_call-Grows idx (bool b) s = Grown-refl s
  fold_tool_call-Grows idx (num n) s = Grown-refl s
  fold_tool_call-Grows idx (other_num l) s = Grown-refl s
  fold_tool_call-Grows idx (str t) s = Grown-refl s
  fold_tool_call-Grows idx (arr items) s = Grown-refl s

  fold_tool_calls-Grows :
      (idx : ℤ) (items : List Json) (s : Fold)
      → Grows nothing nothing
          (any (is_bad_call python converters) items)
          s
          (fold_tool_calls python converters idx items s)
  unfolding fold_tool_calls
  fold_tool_calls-Grows idx [] s = Grown-refl s
  fold_tool_calls-Grows idx (item ∷ items) s =
      Grows-bind nothing nothing nothing nothing _ _ s (fold_tool_call python converters idx item s)
        (fold_tool_calls python converters idx items) (fold_tool_call-Grows idx item s)
        (fold_tool_calls-Grows idx items)

  -- The texts of the choice with index `idx` alone.
  abbrev only : ℤ → List String → ℤ → List String
  only idx texts i = if is_int idx i then texts else []

  at_none : (b : Bool) → if◌then◌else◌ {A = List String} b [] [] ≡ []
  at_none true = refl
  at_none false = refl

  with_content-Grown :
      (idx : ℤ) (o : Option String) (s : Fold)
      → Grown (only idx (one_text o)) nothing false s (with_content idx o s)
  with_content-Grown idx none s = record {
    contents = λ i.
        sym (append-nil _)
        ∙ ap (λ texts. value_at [] i s.contents ++ texts) (sym (at_none (is_int idx i)));
    reasonings = λ i. sym (append-nil _);
    resp_same = refl;
    saw_same = refl;
    sound = λ good h. h;
  }
  with_content-Grown idx (some t) s = record {
    contents = λ i. append_at-said i idx t s.contents;
    reasonings = λ i. sym (append-nil _);
    resp_same = refl;
    saw_same = refl;
    sound = λ good h. h;
  }

  with_reasoning-Grown :
      (idx : ℤ) (o : Option String) (s : Fold)
      → Grown nothing (only idx (one_text o)) false s (with_reasoning idx o s)
  with_reasoning-Grown idx none s = record {
    contents = λ i. sym (append-nil _);
    reasonings = λ i.
        sym (append-nil _)
        ∙ ap (λ texts. value_at [] i s.reasonings ++ texts) (sym (at_none (is_int idx i)));
    resp_same = refl;
    saw_same = refl;
    sound = λ good h. h;
  }
  with_reasoning-Grown idx (some t) s = record {
    contents = λ i. sym (append-nil _);
    reasonings = λ i. append_at-said i idx t s.reasonings;
    resp_same = refl;
    saw_same = refl;
    sound = λ good h. h;
  }

  with_finish-Grown :
      (idx : ℤ) (choice : Fields) (s : Fold)
      → Grown nothing nothing false s (with_finish python converters idx choice s)
  with_finish-Grown idx choice s =
      if_rule (Grown nothing nothing false s) (truthy python (get_or "finish_reason" null choice)) _
        _
        (λ on. record {
          contents = λ i. sym (append-nil _);
          reasonings = λ i. sym (append-nil _);
          resp_same = refl;
          saw_same = refl;
          sound = λ good h. h;
        })
        λ off. Grown-refl s

  silent : (idx : ℤ) (s : Fold) → Grown (only idx []) (only idx []) false s s
  silent idx s = record {
    contents = λ i.
        sym (append-nil _)
        ∙ ap (λ texts. value_at [] i s.contents ++ texts) (sym (at_none (is_int idx i)));
    reasonings = λ i.
        sym (append-nil _)
        ∙ ap (λ texts. value_at [] i s.reasonings ++ texts) (sym (at_none (is_int idx i)));
    resp_same = refl;
    saw_same = refl;
    sound = λ good h. h;
  }

  fold_delta-Grows :
      (idx : ℤ) (choice : Fields) (delta : Json) (s : Fold)
      → Grows
          (only idx (said_by "content" delta))
          (only idx (said_by "reasoning_content" delta))
          (is_bad_delta python converters delta)
          s
          (fold_delta python converters idx choice delta s)
  unfolding fold_delta
  fold_delta-Grows idx choice (obj delta) s =
      let c = only idx (said_by "content" (obj delta)) in
      let r = only idx (said_by "reasoning_content" (obj delta)) in
      let bad = is_bad_delta python converters (obj delta) in
      let s' = with_content idx (text_of (get_or "content" null delta)) s in
      needs_rule (Grows c r bad s) (listed python "tool_calls" delta) _
        (is_bad_list-none (is_bad_call python converters) _)
        λ calls e.
          Grows-of (λ i. (c i ++ []) ++ ([] ++ [])) (λ i. ([] ++ r i) ++ ([] ++ [])) c r
            (any (is_bad_call python converters) calls || false) bad s _
            (λ i. append-nil _ ∙ append-nil _) (λ i. append-nil _) (λ worse. rw e (ground arith))
            (Grown-Grows (λ i. c i ++ []) r nothing nothing false _ s (with_texts idx delta s) _
              (Grown-Grows c nothing nothing r false false s s' (ok (with_texts idx delta s))
                (with_content-Grown idx _ s) (with_reasoning-Grown idx _ s'))
              (Grows-bind nothing nothing nothing nothing _ false (with_texts idx delta s) _ _
                (fold_tool_calls-Grows idx calls (with_texts idx delta s))
                (λ t. with_finish-Grown idx choice t)))
  fold_delta-Grows idx choice null s = silent idx s
  fold_delta-Grows idx choice (bool b) s = silent idx s
  fold_delta-Grows idx choice (num n) s = silent idx s
  fold_delta-Grows idx choice (other_num l) s = silent idx s
  fold_delta-Grows idx choice (str t) s = silent idx s
  fold_delta-Grows idx choice (arr items) s = silent idx s

  pub fold_choice-Grows :
      (choice : Json) (s : Fold)
      → Grows
          (λ i. said_in_choice python converters "content" i choice)
          (λ i. said_in_choice python converters "reasoning_content" i choice)
          (is_bad_choice python converters choice)
          s
          (fold_choice python converters choice s)
  unfolding fold_choice
  fold_choice-Grows (obj choice) s =
      let delta = delta_of python choice in
      needs_rule
        (Grows (λ i. said_in_choice python converters "content" i (obj choice))
          (λ i. said_in_choice python converters "reasoning_content" i (obj choice))
          (is_bad_choice python converters (obj choice)) s)
        (converters.int_of (get_or "index" (num 0) choice)) _ (λ e. rw e refl)
        λ idx e.
          Grows-of (only idx (said_by "content" delta))
            (only idx (said_by "reasoning_content" delta)) _ _
            (is_bad_delta python converters delta) _ s _
            (λ i. ap (at_index python converters "content" i delta) (sym e))
            (λ i. ap (at_index python converters "reasoning_content" i delta) (sym e))
            (λ bad. ground arith) (fold_delta-Grows idx choice delta s)
  fold_choice-Grows null s = Grown-refl s
  fold_choice-Grows (bool b) s = Grown-refl s
  fold_choice-Grows (num n) s = Grown-refl s
  fold_choice-Grows (other_num l) s = Grown-refl s
  fold_choice-Grows (str t) s = Grown-refl s
  fold_choice-Grows (arr items) s = Grown-refl s

  pub fold_choices-Grows :
      (choices : List Json) (s : Fold)
      → Grows
          (λ i. said_in_choices python converters "content" i choices)
          (λ i. said_in_choices python converters "reasoning_content" i choices)
          (any (is_bad_choice python converters) choices)
          s
          (fold_choices python converters choices s)
  unfolding fold_choices
  fold_choices-Grows [] s = Grown-refl s
  fold_choices-Grows (choice ∷ choices) s =
      Grows-bind _ _ _ _ _ _ s (fold_choice python converters choice s)
        (fold_choices python converters choices) (fold_choice-Grows choice s)
        (fold_choices-Grows choices)
