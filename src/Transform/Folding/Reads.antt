-- ===== src/Transform/Folding/Reads.antt =====
-- What the fold of an OpenAI stream has after its chunks, and why it may have failed.
use void_switch.Base.{
  ◌≡◌, refl, ap, ◌∙◌, sym, String, Option, none, some, List, [], ◌∷◌, ◌++◌, true, false, not, ◌||◌,
  any, is_some, if_rule, arith,
}
use mathlib.Core.List.{append-nil, append_assoc}
use void_switch.Base.Results.{err, ok, ◌>>=◌}
use void_switch.Base.Json.{Json, Fields, null, num, other_num, bool, arr, str, obj}
use void_switch.Transform.Sse.{Text}
use void_switch.Transform.Values.{Python, truthy, get_or}
use void_switch.Transform.Numbered.{ℤ, value_at}
use void_switch.Transform.Folding.{
  Converters, stream_error, other_error, Fold, Folded, Head, listed, parsed, or_stream_error,
  message_of, fold_chunk, fold_events,
}
use void_switch.Transform.Folding.Told.{
  said, said_in_chunk, said_in_choices, is_bad_choice, is_bad_chunk, is_bad_list-none, or_later,
  error_in, first_error, chunks_of,
}
use void_switch.Transform.Folding.Steps.{IsSound}
use void_switch.Transform.Folding.Growth.{Grows, needs_rule}
use void_switch.Transform.Folding.Grown.{fold_choices-Grows}
use void_switch.Transform.Folding.Built.{is_empty}

or_later-none : (o p : Option Json) → or_later o none ≡ none → or_later o p ≡ p
or_later-none none p h = refl
or_later-none (some j) p h = absurd (cc h)

or_later-some : (o p : Option Json) (e : Json) → or_later o none ≡ some e → or_later o p ≡ some e
or_later-some none p e h = absurd (cc h)
or_later-some (some j) p e h = h

module _ (python : Python) (converters : Converters) where
  -- From `s` to `t` the fold read some chunks.
  pub record Read (cs : List Json) (s t : Fold) : Type 0 where
    pub quiet : first_error python cs ≡ none
    pub contents :
        (i : ℤ)
        → value_at [] i t.contents
          ≡ value_at [] i s.contents ++ said python converters "content" i cs
    pub reasonings :
        (i : ℤ)
        → value_at [] i t.reasonings
          ≡ value_at [] i s.reasonings ++ said python converters "reasoning_content" i cs
    pub saw : t.saw_chunk ≡ (s.saw_chunk || not (is_empty cs))
    pub started : s.saw_chunk ≡ is_some s.resp → t.saw_chunk ≡ is_some t.resp
    pub sound : any (is_bad_chunk python converters) cs ≡ false → IsSound s → IsSound t

  -- The message is that of the first chunk with an error.
  abbrev pub IsReported : List Json → String → Type 0
  IsReported cs m =
      (error : Json) × (first_error python cs ≡ some error)
      × (m ≡ or_stream_error python (converters.str_of (message_of python error)))

  abbrev pub Reads : List Json → Fold → Folded → Type 0
  Reads cs s (ok t) = Read cs s t
  Reads cs s (err (stream_error m)) = IsReported cs m
  Reads cs s (err other_error) = any (is_bad_chunk python converters) cs ≡ true

  fold_choices-Reads :
      (chunk : Fields) (choices : List Json) (s : Fold) (head : Head) (out : Folded)
      → truthy python (get_or "error" null chunk) ≡ false
      → listed python "choices" chunk ≡ some choices
      → Grows
          (λ i. said_in_choices python converters "content" i choices)
          (λ i. said_in_choices python converters "reasoning_content" i choices)
          (any (is_bad_choice python converters) choices)
          (record s { saw_chunk = true; resp = some head })
          out
      → Reads (obj chunk ∷ []) s out
  fold_choices-Reads chunk choices s head (ok t) off e g = record {
    quiet = rw off refl;
    contents = λ i.
        rw e (g.contents i ∙ ap (λ texts. value_at [] i s.contents ++ texts) (sym (append-nil _)));
    reasonings = λ i.
        rw e
          (g.reasonings i ∙ ap (λ texts. value_at [] i s.reasonings ++ texts) (sym (append-nil _)));
    saw = ground (arith, g.saw_same);
    started = λ h. g.saw_same ∙ sym (ap (λ o. is_some o) g.resp_same);
    sound = λ good h. (let plain = rw e at good in g.sound (ground (arith, plain)) h);
  }
  fold_choices-Reads chunk choices s head (err (stream_error m)) off e g = elim g [ ]
  fold_choices-Reads chunk choices s head (err other_error) off e g = rw e (ground (arith, g))

  fold_chunk-Reads :
      (model : String) (chunk : Json) (s : Fold)
      → Reads (chunk ∷ []) s (fold_chunk python converters model chunk s)
  unfolding fold_chunk
  fold_chunk-Reads model (obj chunk) s =
      if_rule (Reads (obj chunk ∷ []) s) (truthy python (get_or "error" null chunk)) _ _
        (λ on. (get_or "error" null chunk, rw on refl, refl))
        λ off.
          needs_rule (Reads (obj chunk ∷ []) s) (listed python "choices" chunk) _
            (λ e. rw (is_bad_list-none (is_bad_choice python converters) _ e) refl)
            λ choices e.
              fold_choices-Reads chunk choices s _ _ off e
                (fold_choices-Grows python converters choices _)
  fold_chunk-Reads model null s = refl
  fold_chunk-Reads model (bool b) s = refl
  fold_chunk-Reads model (num n) s = refl
  fold_chunk-Reads model (other_num l) s = refl
  fold_chunk-Reads model (str t) s = refl
  fold_chunk-Reads model (arr items) s = refl

  Read-Reads :
      (c : Json) (cs : List Json) (s t : Fold) (out : Folded)
      → Read (c ∷ []) s t
      → Reads cs t out
      → Reads (c ∷ cs) s out
  Read-Reads c cs s t (ok u) g h = record {
    quiet = or_later-none (error_in python c) (first_error python cs) g.quiet ∙ h.quiet;
    contents = λ i.
        let x = said_in_chunk python converters "content" i c in
        let rest = said python converters "content" i cs in
        h.contents i
        ∙ ap (λ texts. texts ++ rest)
            (g.contents i ∙ ap (λ z. value_at [] i s.contents ++ z) (append-nil x))
        ∙ append_assoc (value_at [] i s.contents) x rest;
    reasonings = λ i.
        let x = said_in_chunk python converters "reasoning_content" i c in
        let rest = said python converters "reasoning_content" i cs in
        h.reasonings i
        ∙ ap (λ texts. texts ++ rest)
            (g.reasonings i ∙ ap (λ z. value_at [] i s.reasonings ++ z) (append-nil x))
        ∙ append_assoc (value_at [] i s.reasonings) x rest;
    saw = ground (arith, g.saw, h.saw);
    started = λ e. h.started (g.started e);
    sound = λ good k. h.sound (ground arith) (g.sound (ground arith) k);
  }
  Read-Reads c cs s t (err (stream_error m)) g (error, found, says) =
      (error, or_later-none (error_in python c) (first_error python cs) g.quiet ∙ found, says)
  Read-Reads c cs s t (err other_error) g h = ground (arith, h)

  Reads-bind :
      (c : Json) (cs : List Json) (s : Fold) (m : Folded) (next : Fold → Folded)
      → Reads (c ∷ []) s m
      → ((t : Fold) → Reads cs t (next t))
      → Reads (c ∷ cs) s (m >>= next)
  Reads-bind c cs s (ok t) next g h = Read-Reads c cs s t (next t) g (h t)
  Reads-bind c cs s (err (stream_error m)) next (error, found, says) h =
      (error, or_later-some (error_in python c) (first_error python cs) error found, says)
  Reads-bind c cs s (err other_error) next g h = ground (arith, g)

  Read-refl : (s : Fold) → Read [] s s
  Read-refl s = record {
    quiet = refl;
    contents = λ i. sym (append-nil _);
    reasonings = λ i. sym (append-nil _);
    saw = ground arith;
    started = λ h. h;
    sound = λ good h. h;
  }

  pub fold_events-Reads :
      (model : String) (events : List Text) (s : Fold)
      → Reads (chunks_of python events) s (fold_events python converters model events s)
  unfolding fold_events
  fold_events-Reads model [] s = Read-refl s
  fold_events-Reads model (text ∷ events) s =
      step (parsed python text) (fold_events-Reads model events)
    where
      step :
          (o : Option Json)
          → ((t : Fold)
              → Reads (chunks_of python events) t (fold_events python converters model events t))
          → Reads
              (elim o [
                | none ↦ chunks_of python events
                | some chunk ↦ chunk ∷ chunks_of python events
              ])
              s
              (elim o [
                | none ↦ fold_events python converters model events s
                | some chunk ↦
                    fold_chunk python converters model chunk s
                    >>= fold_events python converters model events
              ])
      step none more = more s
      step (some chunk) more =
          Reads-bind chunk (chunks_of python events) s (fold_chunk python converters model chunk s)
            (fold_events python converters model events) (fold_chunk-Reads model chunk s) more
