-- ===== src/Transform/Folding/Growth.antt =====
-- What a step of the fold over an OpenAI stream may change, and how two such steps make one.
use void_switch.Base.{
  ◌≡◌, refl, ap, ◌∙◌, sym, String, Option, none, some, List, [], ◌++◌, Bool, true, false, ◌||◌,
  is_some, Bool-cases, inl, inr, arith,
}
use mathlib.Core.List.{append-nil, append_assoc}
use void_switch.Base.Results.{Result, err, ok, ◌>>=◌}
use void_switch.Transform.Numbered.{ℤ, value_at}
use void_switch.Transform.Folding.{Failure, stream_error, other_error, Fold, Folded, needs}
use void_switch.Transform.Folding.Steps.{IsSound}

-- From `s` to `t` the choice with index `i` got the texts `c i` and `r i`, and the calls stayed
-- sound unless `bad`.
pub record Grown (c r : ℤ → List String) (bad : Bool) (s t : Fold) : Type 0 where
  pub contents : (i : ℤ) → value_at [] i t.contents ≡ value_at [] i s.contents ++ c i
  pub reasonings : (i : ℤ) → value_at [] i t.reasonings ≡ value_at [] i s.reasonings ++ r i
  pub resp_same : t.resp ≡ s.resp
  pub saw_same : t.saw_chunk ≡ s.saw_chunk
  pub sound : bad ≡ false → IsSound s → IsSound t

-- A step grows the fold, or raises over something bad.
abbrev pub Grows : (c r : ℤ → List String) (bad : Bool) → Fold → Folded → Type 0
Grows c r bad s (ok t) = Grown c r bad s t
Grows c r bad s (err (stream_error m)) = ⊥
Grows c r bad s (err other_error) = bad ≡ true

abbrev pub nothing : ℤ → List String
nothing i = []

pub Grown-refl : (s : Fold) → Grown nothing nothing false s s
Grown-refl s = record {
  contents = λ i. sym (append-nil _);
  reasonings = λ i. sym (append-nil _);
  resp_same = refl;
  saw_same = refl;
  sound = λ good h. h;
}

pub needs_rule {ℓ κ μ} :
    {A : Type ℓ} {B : Type κ} (R : Result Failure B → Type μ) (o : Option A)
    (next : A → Result Failure B)
    → (is_some o ≡ false → R (err other_error))
    → ((a : A) → o ≡ some a → R (next a))
    → R (needs o next)
needs_rule R none next f g = f refl
needs_rule R (some a) next f g = g a refl

module _ (c r c' r' : ℤ → List String) (b b' : Bool) (s t : Fold) where
  pub Grown-Grows :
      (out : Folded)
      → Grown c r b s t
      → Grows c' r' b' t out
      → Grows (λ i. c i ++ c' i) (λ i. r i ++ r' i) (b || b') s out
  Grown-Grows (ok u) g h = record {
    contents = λ i.
        h.contents i
        ∙ ap (λ texts. texts ++ c' i) (g.contents i)
        ∙ append_assoc (value_at [] i s.contents) (c i) (c' i);
    reasonings = λ i.
        h.reasonings i
        ∙ ap (λ texts. texts ++ r' i) (g.reasonings i)
        ∙ append_assoc (value_at [] i s.reasonings) (r i) (r' i);
    resp_same = h.resp_same ∙ g.resp_same;
    saw_same = h.saw_same ∙ g.saw_same;
    sound = λ good k. h.sound (ground arith) (g.sound (ground arith) k);
  }
  Grown-Grows (err (stream_error m)) g h = h
  Grown-Grows (err other_error) g h = ground (arith, h)

module _ (c r c' r' : ℤ → List String) (b b' : Bool) (s : Fold) where
  pub Grows-bind :
      (m : Folded) (next : Fold → Folded)
      → Grows c r b s m
      → ((t : Fold) → Grows c' r' b' t (next t))
      → Grows (λ i. c i ++ c' i) (λ i. r i ++ r' i) (b || b') s (m >>= next)
  Grows-bind (ok t) next g h = Grown-Grows c r c' r' b b' s t (next t) g (h t)
  Grows-bind (err (stream_error m)) next g h = g
  Grows-bind (err other_error) next g h = ground (arith, g)

  -- The same growth in other words.
  pub Grows-of :
      (out : Folded)
      → ((i : ℤ) → c i ≡ c' i)
      → ((i : ℤ) → r i ≡ r' i)
      → (b ≡ true → b' ≡ true)
      → Grows c r b s out
      → Grows c' r' b' s out
  Grows-of (ok t) e e' f g = record {
    contents = λ i. g.contents i ∙ ap (λ texts. value_at [] i s.contents ++ texts) (e i);
    reasonings = λ i. g.reasonings i ∙ ap (λ texts. value_at [] i s.reasonings ++ texts) (e' i);
    resp_same = g.resp_same;
    saw_same = g.saw_same;
    sound = λ good.
        g.sound (elim (Bool-cases b) [ inl bad ↦ absurd (cc (f bad, good)) | inr fine ↦ fine ]);
  }
  Grows-of (err (stream_error m)) e e' f g = g
  Grows-of (err other_error) e e' f g = f g
