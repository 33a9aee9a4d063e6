-- ===== src/Transform/Numbered.antt =====
-- Dicts whose keys are Python's integers, in the order in which the keys came.
use void_switch.Base.{
  ℕ, ◌≡◌, refl, ap, arith, List, [], ◌∷◌, Bool, true, false, ◌==◌, leb, if◌then◌else◌, any,
  Bool-cases, inl, inr,
}

-- `negsuc n` is -(n + 1).
pub data ℤ : Type 0 where
  pos negsuc : ℕ → ℤ

abbrev pub is_int : ℤ → ℤ → Bool
is_int (pos m) (pos n) = m == n
is_int (negsuc m) (negsuc n) = m == n
is_int _ _ = false

abbrev pub le_int : ℤ → ℤ → Bool
le_int (pos m) (pos n) = leb m n
le_int (pos m) (negsuc n) = false
le_int (negsuc m) (pos n) = true
le_int (negsuc m) (negsuc n) = leb n m

pub is_int_refl : (i : ℤ) → is_int i i ≡ true
is_int_refl (pos m) = ground arith
is_int_refl (negsuc m) = ground arith

pub is_int_sound : (i j : ℤ) → is_int i j ≡ true → i ≡ j
is_int_sound (pos m) (pos n) h = ap pos (ground arith)
is_int_sound (negsuc m) (negsuc n) h = ap negsuc (ground arith)
is_int_sound (pos m) (negsuc n) h = absurd (cc h)
is_int_sound (negsuc m) (pos n) h = absurd (cc h)

abbrev pub Numbered {ℓ} : Type ℓ → Type ℓ
Numbered A = List (ℤ × A)

module _ {ℓ} {A : Type ℓ} where
  -- d.get(i, otherwise)
  unfoldable pub value_at : A → ℤ → Numbered A → A
  value_at otherwise i [] = otherwise
  value_at otherwise i ((j, a) ∷ d) =
      let rest = value_at otherwise i d in if is_int j i then a else rest

  -- d[i] = change(d.get(i, otherwise))
  unfoldable pub update_at : A → (A → A) → ℤ → Numbered A → Numbered A
  update_at otherwise change i [] = (i, change otherwise) ∷ []
  update_at otherwise change i ((j, a) ∷ d) =
      let rest = update_at otherwise change i d in
      if is_int j i then (j, change a) ∷ d else (j, a) ∷ rest

  abbrev pub keys_of : Numbered A → List ℤ
  keys_of [] = []
  keys_of ((j, a) ∷ d) = j ∷ keys_of d

  pub value_at-update_at :
      (otherwise : A) (change : A → A) (i : ℤ) (d : Numbered A)
      → value_at otherwise i (update_at otherwise change i d) ≡ change (value_at otherwise i d)
  unfolding value_at update_at
  value_at-update_at otherwise change i [] = rw (is_int_refl i) refl
  value_at-update_at otherwise change i ((j, a) ∷ d) = elim (Bool-cases (is_int j i)) [
    | inl e ↦ rw (e, e) refl
    | inr e ↦ rw (e, e) (value_at-update_at otherwise change i d)
  ]

  pub value_at-update_at_other :
      (otherwise : A) (change : A → A) (i k : ℤ) (d : Numbered A)
      → is_int k i ≡ false
      → value_at otherwise i (update_at otherwise change k d) ≡ value_at otherwise i d
  unfolding value_at update_at
  value_at-update_at_other otherwise change i k [] h = rw h refl
  value_at-update_at_other otherwise change i k ((j, a) ∷ d) h = elim (Bool-cases (is_int j k)) [
    | inl e ↦ let same : is_int j i ≡ false = rw (is_int_sound j k e) h in rw (e, same) refl
    | inr e ↦ rw e (
        ap (λ rest. if is_int j i then a else rest)
          (value_at-update_at_other otherwise change i k d h))
  ]

-- The elements of a set from a list of them.
unfoldable pub distinct : List ℤ → List ℤ
distinct [] = []
distinct (i ∷ is) = let rest = distinct is in if any (is_int i) is then rest else i ∷ rest
