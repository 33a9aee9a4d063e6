-- ===== src/Base/Sort.antt =====
-- Python's stable `sorted`, and its order of tuples, over any total preorder.
use Prim.Native.Nat.{ℕ}
use mathlib.Core.Path.{◌≡◌, refl}
use mathlib.Core.Bool.{Bool, true, false, ◌||◌}
use mathlib.Core.List.{List, [], ◌∷◌, Perm}
use mathlib.Core.List.Perm
use native.Mathlib.Omega.{arith}
use void_switch.Base.Tests.{if◌then◌else◌, leb, Bool-cases}
use void_switch.Base.Lists.{All, All-map, any}
use mathlib.Core.Logic.{inl, inr}

pub record IsPreorder {ℓ} {A : Type ℓ} (le : A → A → Bool) : Type ℓ where
  pub total : (a b : A) → le a b ≡ false → le b a ≡ true
  pub trans : (a b c : A) → le a b ≡ true → le b c ≡ true → le a c ≡ true

-- Tuples compare by their first difference; `<=` on the parts decides it.
abbrev pub lex {ℓ} : {A : Type ℓ} → (A → A → Bool) → List A → List A → Bool
lex le [] ys = true
lex le (x ∷ xs) [] = false
lex le (x ∷ xs) (y ∷ ys) =
    let rest = lex le xs ys in if le x y then (if le y x then rest else true) else false

-- Sorting by a key.
abbrev pub by {ℓ κ} : {A : Type ℓ} {K : Type κ} → (K → K → Bool) → (A → K) → A → A → Bool
by le key a b = le (key a) (key b)

module _ {ℓ} {A : Type ℓ} where
  unfoldable pub insert_by : (A → A → Bool) → A → List A → List A
  insert_by le x [] = x ∷ []
  insert_by le x (y ∷ ys) = let rest = insert_by le x ys in if le x y then x ∷ y ∷ ys else y ∷ rest

  unfoldable pub sort_by : (A → A → Bool) → List A → List A
  unfolding insert_by
  sort_by le [] = []
  sort_by le (x ∷ xs) = insert_by le x (sort_by le xs)

  any-insert_by :
      (le : A → A → Bool) (test : A → Bool) (x : A) (xs : List A)
      → any test (insert_by le x xs) ≡ (test x || any test xs)
  unfolding insert_by
  any-insert_by le test x [] = refl
  any-insert_by le test x (y ∷ ys) = ground (arith, any-insert_by le test x ys)

  pub any-sort_by :
      (le : A → A → Bool) (test : A → Bool) (xs : List A) → any test (sort_by le xs) ≡ any test xs
  unfolding sort_by
  any-sort_by le test [] = refl
  any-sort_by le test (x ∷ xs) =
      ground (arith, any-insert_by le test x (sort_by le xs), any-sort_by le test xs)

  -- Each element is at most every later one.
  abbrev pub IsSorted : (A → A → Bool) → List A → Type ℓ
  IsSorted le [] = Unit
  IsSorted le (x ∷ xs) = All (λ y. le x y ≡ true) xs × IsSorted le xs

  insert_by-perm : (le : A → A → Bool) (x : A) (xs : List A) → Perm (insert_by le x xs) (x ∷ xs)
  unfolding insert_by
  insert_by-perm le x [] = Perm.refl _
  insert_by-perm le x (y ∷ ys) = ground (
    arith,
    Perm.refl (x ∷ y ∷ ys),
    Perm.trans (Perm.cons y (insert_by-perm le x ys)) (Perm.swap x y ys),
  )

  pub sort_by-perm : (le : A → A → Bool) (xs : List A) → Perm (sort_by le xs) xs
  unfolding sort_by
  sort_by-perm le [] = Perm.nil
  sort_by-perm le (x ∷ xs) =
      Perm.trans (insert_by-perm le x (sort_by le xs)) (Perm.cons x (sort_by-perm le xs))

  insert_by-least :
      (le : A → A → Bool) (x : A) (xs : List A)
      → All (λ y. le x y ≡ true) xs
      → insert_by le x xs ≡ x ∷ xs
  unfolding insert_by
  insert_by-least le x [] h = refl
  insert_by-least le x (y ∷ ys) h = rw h.0

  -- A sorted list stays as it is.
  pub sort_by_fixed : (le : A → A → Bool) (xs : List A) → IsSorted le xs → sort_by le xs ≡ xs
  unfolding sort_by
  sort_by_fixed le [] s = refl
  sort_by_fixed le (x ∷ xs) s = rw (sort_by_fixed le xs s.1) (insert_by-least le x xs s.0)

module _ {ℓ} {A : Type ℓ} (le : A → A → Bool) (o : IsPreorder le) where
  All-insert_by :
      (z x : A) (xs : List A)
      → le z x ≡ true
      → All (λ y. le z y ≡ true) xs
      → All (λ y. le z y ≡ true) (insert_by le x xs)
  unfolding insert_by
  All-insert_by z x [] h k = (h, tt)
  All-insert_by z x (y ∷ ys) h k = ground (arith, All-insert_by z x ys h k.1)

  insert_by-IsSorted : (x : A) (xs : List A) → IsSorted le xs → IsSorted le (insert_by le x xs)
  unfolding insert_by
  insert_by-IsSorted x [] s = (tt, tt)
  insert_by-IsSorted x (y ∷ ys) s = elim (Bool-cases (le x y)) [
    | inl e ↦
        rw e
          ((e, All-map (λ z. le y z ≡ true) (λ z. le x z ≡ true) ys (λ z. o.trans x y z e) s.0), s)
    | inr e ↦ rw e (All-insert_by y x ys (o.total x y e) s.0, insert_by-IsSorted x ys s.1)
  ]

  pub sort_by-IsSorted : (xs : List A) → IsSorted le (sort_by le xs)
  unfolding sort_by
  sort_by-IsSorted [] = tt
  sort_by-IsSorted (x ∷ xs) = insert_by-IsSorted x (sort_by le xs) (sort_by-IsSorted xs)

pub leb-IsPreorder : IsPreorder leb
leb-IsPreorder = record { total = λ a b h. ground arith; trans = λ a b c h k. ground arith }

module _ {ℓ} {A : Type ℓ} (le : A → A → Bool) (o : IsPreorder le) where
  lex_total : (xs ys : List A) → lex le xs ys ≡ false → lex le ys xs ≡ true
  lex_total [] ys h = cc
  lex_total (x ∷ xs) [] h = refl
  lex_total (x ∷ xs) (y ∷ ys) h = ground (arith, o.total x y, lex_total xs ys)

  lex_trans : (xs ys zs : List A) → lex le xs ys ≡ true → lex le ys zs ≡ true → lex le xs zs ≡ true
  lex_trans [] ys zs h k = refl
  lex_trans (x ∷ xs) [] zs h k = cc
  lex_trans (x ∷ xs) (y ∷ ys) [] h k = cc
  lex_trans (x ∷ xs) (y ∷ ys) (z ∷ zs) h k =
      ground (arith, o.trans x y z, o.trans z x y, o.trans y z x, o.trans z y x, lex_trans xs ys zs)

  pub lex-IsPreorder : IsPreorder (lex le)
  lex-IsPreorder = record { total = lex_total; trans = lex_trans }

pub by-IsPreorder {ℓ κ} :
    {A : Type ℓ} {K : Type κ} (le : K → K → Bool) (key : A → K)
    → IsPreorder le
    → IsPreorder (by le key)
by-IsPreorder le key o = record {
  total = λ a b. o.total (key a) (key b);
  trans = λ a b c. o.trans (key a) (key b) (key c);
}

module _ {ℓ κ} {A : Type ℓ} where
  All-insert_any :
      (P : A → Type κ) (le : A → A → Bool) (x : A) (xs : List A)
      → P x
      → All P xs
      → All P (insert_by le x xs)
  unfolding insert_by
  All-insert_any P le x [] h k = (h, tt)
  All-insert_any P le x (y ∷ ys) h k = elim (Bool-cases (le x y)) [
    | inl e ↦ rw e (h, k)
    | inr e ↦ rw e (k.0, All-insert_any P le x ys h k.1)
  ]

  pub All-sort_by :
      (P : A → Type κ) (le : A → A → Bool) (xs : List A) → All P xs → All P (sort_by le xs)
  unfolding sort_by
  All-sort_by P le [] h = tt
  All-sort_by P le (x ∷ xs) h = All-insert_any P le x (sort_by le xs) h.0 (All-sort_by P le xs h.1)

-- The second test decides where the first one holds both ways.
abbrev pub then_by : Bool → Bool → Bool → Bool
then_by le ge rest = if le then (if ge then rest else true) else false

module _ {A : Type 0} where
  abbrev pub before : (p q : A → A → Bool) → A → A → Bool
  before p q a b = then_by (p a b) (p b a) (q a b)

  pub before-IsPreorder :
      (p q : A → A → Bool) → IsPreorder p → IsPreorder q → IsPreorder (before p q)
  before-IsPreorder p q hp hq = record {
    total = λ a b h. total_of (p a b) (p b a) (q a b) (q b a) (hp.total a b) (hq.total a b) h;
    trans = λ a b c h k.
        trans_of (p a b) (p b a) (p b c) (p c b) (p a c) (p c a) (q a b) (q b c) (q a c)
          (hp.trans a b c) (hp.trans c a b) (hp.trans b c a) (hq.trans a b c) h k;
  }
    where
      total_of :
          (x y u v : Bool)
          → (x ≡ false → y ≡ true)
          → (u ≡ false → v ≡ true)
          → then_by x y u ≡ false
          → then_by y x v ≡ true
      total_of true true u v f g h = g h
      total_of true false u v f g h = cc
      total_of false y u v f g h = rw (f refl) refl

      trans_of :
          (ab ba bc cb ac ca qab qbc qac : Bool)
          → (ab ≡ true → bc ≡ true → ac ≡ true)
          → (ca ≡ true → ab ≡ true → cb ≡ true)
          → (bc ≡ true → ca ≡ true → ba ≡ true)
          → (qab ≡ true → qbc ≡ true → qac ≡ true)
          → then_by ab ba qab ≡ true
          → then_by bc cb qbc ≡ true
          → then_by ac ca qac ≡ true
      trans_of false ba bc cb ac ca qab qbc qac f g k q h i = cc
      trans_of true ba false cb ac ca qab qbc qac f g k q h i = cc
      trans_of true ba true cb ac false qab qbc qac f g k q h i = rw (f refl refl) refl
      trans_of true ba true cb ac true qab qbc qac f g k q h i =
          rw (f refl refl) (q (rw (k refl refl) at h) (rw (g refl refl) at i))

  pub least_first : (f : A → ℕ) → IsPreorder (λ a b. leb (f a) (f b))
  least_first f = by-IsPreorder leb f leb-IsPreorder

  pub most_first : (f : A → ℕ) → IsPreorder (λ a b. leb (f b) (f a))
  most_first f = record { total = λ a b h. ground arith; trans = λ a b c h k. ground arith }
