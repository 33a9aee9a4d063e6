-- ===== src/Base/Lists.antt =====
-- Lists measured by native numbers, Boolean filters, and predicates on lists by recursion.
use Prim.Native.Nat.{ℕ, zero, suc, ◌+◌, ◌≤◌}
use mathlib.Core.Path.{◌≡◌, refl, ap}
use mathlib.Core.Bool.{Bool, true, false, ◌||◌, ◌&&◌}
use mathlib.Core.List.{
  List, [], ◌∷◌, ◌++◌, Perm, perm_middle, Mem, mem-cons, not-mem-nil, reverse, reverse-cons, map,
}
use mathlib.Core.List.Perm
use mathlib.Core.Logic.Or
use mathlib.Core.Logic.{inl, inr}
use mathlib.Core.Option.{Option, none, some}
use native.Mathlib.Omega.{arith}
use void_switch.Base.Tests.{if◌then◌else◌, Bool-cases}

module _ {ℓ} {A : Type ℓ} where
  abbrev pub length : List A → ℕ
  length [] = 0
  length (x ∷ xs) = suc (length xs)

  abbrev pub take : ℕ → List A → List A
  take zero xs = []
  take (suc n) [] = []
  take (suc n) (x ∷ xs) = x ∷ take n xs

  abbrev pub drop : ℕ → List A → List A
  drop zero xs = xs
  drop (suc n) [] = []
  drop (suc n) (x ∷ xs) = drop n xs

  -- [x for x in xs if test(x)]
  abbrev pub keep : (A → Bool) → List A → List A
  keep test [] = []
  keep test (x ∷ xs) = let rest = keep test xs in if test x then x ∷ rest else rest

  -- any(test(x) for x in xs)
  abbrev pub any : (A → Bool) → List A → Bool
  any test [] = false
  any test (x ∷ xs) = test x || any test xs

  -- all(test(x) for x in xs)
  abbrev pub all : (A → Bool) → List A → Bool
  all test [] = true
  all test (x ∷ xs) = test x && all test xs

  -- next((x for x in xs if test(x)), None)
  abbrev pub find : (A → Bool) → List A → Option A
  find test [] = none
  find test (x ∷ xs) = let rest = find test xs in if test x then some x else rest

  pub length-append : (xs ys : List A) → length (xs ++ ys) ≡ length xs + length ys
  length-append [] ys = omega arith
  length-append (x ∷ xs) ys = omega (arith, length-append xs ys)

  pub take-append-drop : (n : ℕ) (xs : List A) → take n xs ++ drop n xs ≡ xs
  take-append-drop zero xs = refl
  take-append-drop (suc n) [] = refl
  take-append-drop (suc n) (x ∷ xs) = ap (◌∷◌ x) (take-append-drop n xs)

  pub any-append :
      (test : A → Bool) (xs ys : List A) → any test (xs ++ ys) ≡ (any test xs || any test ys)
  any-append test [] ys = refl
  any-append test (x ∷ xs) ys = ground (arith, any-append test xs ys)

  pub any-reverse : (test : A → Bool) (xs : List A) → any test (reverse xs) ≡ any test xs
  any-reverse test [] = refl
  any-reverse test (x ∷ xs) =
      rw (reverse-cons x xs, any-append test (reverse xs) (x ∷ []))
        (ground (arith, any-reverse test xs))

  pub any-keep :
      (test p : A → Bool) (xs : List A) → any test xs ≡ false → any test (keep p xs) ≡ false
  any-keep test p [] h = refl
  any-keep test p (x ∷ xs) h = ground (arith, any-keep test p xs)

  pub length-keep-le : (test : A → Bool) (xs : List A) → length (keep test xs) ≤ length xs
  length-keep-le test [] = omega arith
  length-keep-le test (x ∷ xs) = ground (arith, length-keep-le test xs)

  pub keep-append :
      (test : A → Bool) (xs ys : List A) → keep test (xs ++ ys) ≡ keep test xs ++ keep test ys
  keep-append test [] ys = refl
  keep-append test (x ∷ xs) ys = ground (arith, keep-append test xs ys)

  -- What a test keeps and what it drops make up the list, as often as they stand there.
  pub keep-perm :
      (test other : A → Bool) (xs : List A)
      → ((x : A) → other x ≡ (if test x then false else true))
      → Perm (keep test xs ++ keep other xs) xs
  keep-perm test other [] h = Perm.nil
  keep-perm test other (x ∷ xs) h =
      let rest = keep-perm test other xs h in
      ground (
        arith,
        h x,
        Perm.cons x rest,
        Perm.trans (perm_middle (keep test xs) (keep other xs)) (Perm.cons x rest),
      )

  -- What a filter keeps passes its test.
  pub keep_mem : (test : A → Bool) (a : A) (xs : List A) → Mem a (keep test xs) → test a ≡ true
  keep_mem test a [] m = absurd (not-mem-nil m)
  keep_mem test a (x ∷ xs) m = elim (Bool-cases (test x)) [
    | inl e ↦ Or.elim (hlevel) (mem-cons.0 (rw e at m)) (λ p. rw p e) (keep_mem test a xs)
    | inr e ↦ keep_mem test a xs (rw e at m)
  ]

  -- Two filters that exclude one another, each filtered again.
  pub keep_two-perm :
      (p a b : A → Bool) (xs : List A)
      → ((x : A) → a x ≡ true → b x ≡ false)
      → Perm (keep p (keep a xs) ++ keep p (keep b xs)) (keep (λ x. p x && (a x || b x)) xs)
  keep_two-perm p a b [] h = Perm.nil
  keep_two-perm p a b (x ∷ xs) h =
      let rest = keep_two-perm p a b xs h in
      let left = keep p (keep a xs) in
      let right = keep p (keep b xs) in
      ground (
        arith,
        h x,
        rest,
        Perm.cons x rest,
        Perm.trans (perm_middle {a = x} left right) (Perm.cons x rest),
      )

module _ {ℓ κ} {A : Type ℓ} where
  abbrev pub All : (A → Type κ) → List A → Type κ
  All P [] = Unit
  All P (x ∷ xs) = P x × All P xs

  pub All-append : (P : A → Type κ) (xs ys : List A) → All P xs → All P ys → All P (xs ++ ys)
  All-append P [] ys h k = k
  All-append P (x ∷ xs) ys h k = (h.0, All-append P xs ys h.1 k)

  pub All-keep : (P : A → Type κ) (test : A → Bool) (xs : List A) → All P xs → All P (keep test xs)
  All-keep P test [] h = h
  All-keep P test (x ∷ xs) h = ground (arith, All-keep P test xs h.1)

module _ {ℓ κ μ} {A : Type ℓ} where
  pub All-map :
      (P : A → Type κ) (Q : A → Type μ) (xs : List A) → ((a : A) → P a → Q a) → All P xs → All Q xs
  All-map P Q [] f h = tt
  All-map P Q (x ∷ xs) f h = (f x h.0, All-map P Q xs f h.1)

module _ {ℓ κ} {A : Type ℓ} where
  pub All-reverse : (P : A → Type κ) (xs : List A) → All P xs → All P (reverse xs)
  All-reverse P [] h = tt
  All-reverse P (x ∷ xs) h =
      rw (reverse-cons x xs) (All-append P (reverse xs) (x ∷ []) (All-reverse P xs h.1) (h.0, tt))

module _ {ℓ κ} {A : Type ℓ} {B : Type κ} where
  pub length-map : (f : A → B) (xs : List A) → length (map f xs) ≡ length xs
  length-map f [] = refl
  length-map f (x ∷ xs) = ap suc (length-map f xs)
