-- ===== src/Selector/Turns.antt =====
-- Round robin gives each key its turn.
use mathlib.Core.List.{append_assoc}
use mathlib.Core.Path.{ap₂}
use native.Mathlib.Nat.{mod-lt, mod-add-mod, mod_self, zero-add, suc-add}
use text.Mathlib.TextPositions.{eq_refl}
use void_switch.Base.{
  ◌%◌, ◌+◌, ◌-◌, ℕ, zero, suc, String, List, [], ◌∷◌, ◌++◌, ◌≡◌, refl, arith, take, drop, Perm,
  length, ◌≤◌, ◌<◌, sym, ◌∙◌, ap, subst,
}
use void_switch.Keys.{ApiKey}
use void_switch.Selector.{Redis, rotate, rotate_by, bump_cursor, called}
use void_switch.Selector.Orders.{rotate_by-perm}

-- The keys that lead `n` successive calls over one list.
pub leads : ℕ → List ApiKey → ℕ → String → Redis → List ApiKey
leads zero l p pool r = []
leads (suc n) l p pool r = take 1 (rotate l p pool r).0 ++ leads n l p pool (rotate l p pool r).1

after : ℕ → ℕ → String → Redis → Redis
after zero p pool r = r
after (suc n) p pool r = after n p pool (bump_cursor p pool (called r))

take-nil : {A : Type 0} (m : ℕ) → take {A = A} m [] ≡ []
take-nil zero = refl
take-nil (suc m) = refl

take-length : {A : Type 0} (l : List A) → take (length l) l ≡ l
take-length [] = refl
take-length (x ∷ l) = ap (◌∷◌ x) (take-length l)

take-drop-suc :
    {A : Type 0} (m s : ℕ) (l : List A)
    → take 1 (drop s l) ++ take m (drop (suc s) l) ≡ take (suc m) (drop s l)
take-drop-suc m zero [] = take-nil m
take-drop-suc m zero (x ∷ l) = refl
take-drop-suc m (suc s) [] = take-nil m
take-drop-suc m (suc s) (x ∷ l) = take-drop-suc m s l

take-drop-one :
    {A : Type 0} (s : ℕ) (l rest : List A)
    → s < length l
    → take 1 (drop s l ++ rest) ≡ take 1 (drop s l)
take-drop-one s [] rest h = absurd (omega arith)
take-drop-one zero (x ∷ l) rest h = refl
take-drop-one (suc s) (x ∷ l) rest h = take-drop-one s l rest (omega arith)

mod_wrap : (c n : ℕ) → 0 < n → (c + (n - c % n)) % n ≡ 0
mod_wrap c n h =
    sym (mod-add-mod c n (n - c % n))
    ∙ ap (λ (t : ℕ). t % n) (omega (arith, mod-lt c h))
    ∙ mod_self n

mod_next : (c n s : ℕ) → c % n ≡ s → s + 1 < n → (c + 1) % n ≡ s + 1
mod_next c n s e h = grind (arith, mod-add-mod)

module _ (l : List ApiKey) (p : ℕ) (pool : String) where
  rotate_lem :
      (r : Redis)
      → r.faults ≡ []
      → 2 ≤ length l
      → rotate l p pool r
        ≡ (rotate_by (r.cursor p pool % length l) l, bump_cursor p pool (called r))
  unfolding rotate
  rotate_lem r f h = ground arith

  cursor_bump : (r : Redis) → (bump_cursor p pool r).cursor p pool ≡ r.cursor p pool + 1
  cursor_bump r = ground (arith, eq_refl pool)

  cursor_next :
      (r : Redis) (s : ℕ)
      → 2 ≤ length l
      → r.cursor p pool % length l ≡ s
      → s + 1 < length l
      → (bump_cursor p pool (called r)).cursor p pool % length l ≡ suc s
  cursor_next r s h e w =
      ap (λ (t : ℕ). t % length l) (cursor_bump (called r))
      ∙ mod_next (r.cursor p pool) (length l) s e w
      ∙ omega arith

  leads_window :
      (m s : ℕ) (r : Redis)
      → r.faults ≡ []
      → 2 ≤ length l
      → r.cursor p pool % length l ≡ s
      → m + s ≤ length l
      → leads m l p pool r ≡ take m (drop s l)
  unfolding leads rotate_by
  leads_window zero s r f h e w = refl
  leads_window (suc zero) s r f h e w =
      rw (rotate_lem r f h, e)
        (ap (λ t. t ++ []) (take-drop-one s l _ (omega arith)) ∙ take-drop-suc 0 s l)
  leads_window (suc (suc m)) s r f h e w =
      rw (rotate_lem r f h, e)
        (ap₂ ◌++◌ (take-drop-one s l _ (omega arith)) (
            leads_window (suc m) (suc s) (bump_cursor p pool (called r)) (rw f refl) h
              (cursor_next r s h e (omega arith)) (omega arith))
          ∙ take-drop-suc (suc m) s l)

  leads-append :
      (a b : ℕ) (r : Redis)
      → r.faults ≡ []
      → 2 ≤ length l
      → leads (a + b) l p pool r ≡ leads a l p pool r ++ leads b l p pool (after a p pool r)
  unfolding leads after
  leads-append zero b r f h = rw zero-add
  leads-append (suc a) b r f h =
      rw (suc-add a b, rotate_lem r f h)
        (ap (◌++◌ _) (leads-append a b (bump_cursor p pool (called r)) (rw f refl) h)
          ∙ sym (
              append_assoc (take 1 (rotate_by (r.cursor p pool % length l) l))
                (leads a l p pool (bump_cursor p pool (called r)))
                (leads b l p pool (after a p pool (bump_cursor p pool (called r))))))

  after_lem :
      (a : ℕ) (r : Redis)
      → r.faults ≡ []
      → ((after a p pool r).cursor p pool ≡ r.cursor p pool + a) × ((after a p pool r).faults ≡ [])
  unfolding after
  after_lem zero r f = (omega arith, f)
  after_lem (suc a) r f =
      let rest = after_lem a (bump_cursor p pool (called r)) (rw f refl) in
      (omega (arith, rest.0, cursor_bump (called r)), rest.1)

take-drop_rest :
    {A : Type 0} (s : ℕ) (l : List A) → s ≤ length l → take (length l - s) (drop s l) ≡ drop s l
take-drop_rest zero [] h = refl
take-drop_rest zero (x ∷ l) h =
    let e : length (x ∷ l) - 0 ≡ length (x ∷ l) = omega arith in
    ap (λ (t : ℕ). take t (x ∷ l)) e ∙ take-length (x ∷ l)
take-drop_rest (suc s) [] h = absurd (omega arith)
take-drop_rest (suc s) (x ∷ l) h =
    let e : length (x ∷ l) - suc s ≡ length l - s = omega arith in
    ap (λ (t : ℕ). take t (drop s l)) e ∙ take-drop_rest s l (omega arith)

-- With Redis answering, as many successive requests as there are keys, two or more, are led by
-- the keys in manual order from the cursor on, and so by each key exactly once.
pub rotate_turns :
    (l : List ApiKey) (p : ℕ) (pool : String) (r : Redis)
    → r.faults ≡ []
    → 2 ≤ length l
    → (leads (length l) l p pool r ≡ rotate_by (r.cursor p pool % length l) l)
      × Perm (leads (length l) l p pool r) l
unfolding rotate_by
rotate_turns l p pool r f h = (turns, subst (λ t. Perm t l) (sym turns) (rotate_by-perm _ l))
  where
    n : ℕ
    n = length l

    start : ℕ
    start = r.cursor p pool % n

    early : start < n
    early = mod-lt (r.cursor p pool) (omega arith)

    wrapped : leads start l p pool (after (n - start) p pool r) ≡ take start l
    wrapped =
        let (moved, calm) = after_lem l p pool (n - start) r f in
        leads_window l p pool start 0 (after (n - start) p pool r) calm h
          (ap (λ (t : ℕ). t % n) moved ∙ mod_wrap (r.cursor p pool) n (omega arith)) (omega arith)

    turns : leads n l p pool r ≡ rotate_by start l
    turns =
        ap (λ (t : ℕ). leads t l p pool r) (omega (arith, early))
        ∙ leads-append l p pool (n - start) start r f h
        ∙ ap₂ ◌++◌
            (leads_window l p pool (n - start) start r f h refl (omega (arith, early))
              ∙ take-drop_rest start l (omega (arith, early)))
            wrapped
