-- ===== src/State/Marking.antt =====
-- The store after a state has been discarded, packages/client/src/State.ts.
use mathlib.Core.Bool.{true≢false}
use native.Mathlib.Decide.{ℕ_discrete}
use logion_api.Common.{
  ℕ, zero, suc, ◌≤◌, ◌<◌, ◌≡◌, ◌≢◌, refl, sym, ap, ◌∙◌, true, false, Option, some, List, [], ◌∷◌,
  length, get_elem?, arith, length-set, get_elem?-set_self, get_elem?-set_ne, inl, inr,
  Option-cases,
}
use logion_api.State.{Cell, Store, is_discarded, next_of, mark_discarded}
use logion_api.State.Chain.{IsOrdered, Follows}

-- `s'` has the objects of `s`, unchanged, and perhaps new ones.
pub record Extends {A : Type 0} (s s' : Store A) : Type 0 where
  pub grown : length s ≤ length s'
  pub kept : (k : ℕ) → k < length s → get_elem? s' k ≡ get_elem? s k

get_elem?-lt :
    {B : Type 0} (xs : List B) (i : ℕ) → i < length xs → (x : B) × (get_elem? xs i ≡ some x)
get_elem?-lt [] i h = absurd (omega arith)
get_elem?-lt (x ∷ xs) zero h = (x, refl)
get_elem?-lt (x ∷ xs) (suc i) h = get_elem?-lt xs i (omega arith)

module _ {A : Type 0} (s : Store A) (j : ℕ) (next : Option ℕ) where
  pub length-mark : length (mark_discarded j next s) ≡ length s
  unfolding mark_discarded
  length-mark = elim (Option-cases (get_elem? s j)) [
    | inl missing ↦ rw (missing, mark_discarded)
    | inr (c, found) ↦
        rw (found, mark_discarded)
          (length-set s j (record c { discarded = true; next_state = next }))
  ]

  pub mark_self :
      j < length s
      → (c : Cell A) × (get_elem? (mark_discarded j next s) j
          ≡ some (record c { discarded = true; next_state = next }))
  unfolding mark_discarded
  mark_self h =
      let (c, found) = get_elem?-lt s j h in
      (
        c,
        rw (found, mark_discarded)
            (get_elem?-set_self s j (record c { discarded = true; next_state = next }) h),
      )

  mark_ne : (k : ℕ) → j ≢ k → get_elem? (mark_discarded j next s) k ≡ get_elem? s k
  unfolding mark_discarded
  mark_ne k h = elim (Option-cases (get_elem? s j)) [
    | inl missing ↦ rw (missing, mark_discarded)
    | inr (c, found) ↦
        rw (found, mark_discarded)
          (get_elem?-set_ne s (record c { discarded = true; next_state = next }) h)
  ]

  pub is_discarded-mark_self : j < length s → is_discarded (mark_discarded j next s) j ≡ true
  unfolding is_discarded
  is_discarded-mark_self h = let (c, e) = mark_self h in rw (e, is_discarded)

  pub next_of-mark_self : j < length s → next_of (mark_discarded j next s) j ≡ next
  unfolding next_of
  next_of-mark_self h = let (c, e) = mark_self h in rw (e, next_of)

  pub is_discarded-mark_ne :
      (k : ℕ) → j ≢ k → is_discarded (mark_discarded j next s) k ≡ is_discarded s k
  unfolding is_discarded
  is_discarded-mark_ne k h = rw (mark_ne k h, is_discarded)

  next_of-mark_ne : (k : ℕ) → j ≢ k → next_of (mark_discarded j next s) k ≡ next_of s k
  unfolding next_of
  next_of-mark_ne k h = rw (mark_ne k h, next_of)

  -- Discarding keeps the order, if the replacement is a newer state.
  pub mark-IsOrdered :
      IsOrdered s
      → j < length s
      → ((n : ℕ) → next ≡ some n → (j < n) × (n < length s))
      → IsOrdered (mark_discarded j next s)
  mark-IsOrdered o h newer = record {
    newer = λ a b e. elim (ℕ_discrete j a) [
      | yes same ↦
          let e' : next ≡ some b =
            sym (next_of-mark_self h) ∙ ap (next_of (mark_discarded j next s)) same ∙ e in
          let (p, q) = newer b e' in (omega arith, omega (arith, length-mark))
      | no other ↦
          let (p, q) = o.newer a b (sym (next_of-mark_ne a other) ∙ e) in
          (p, omega (arith, length-mark))
    ];
    replaced = λ a b e. elim (ℕ_discrete j a) [
      | yes same ↦ ap (is_discarded (mark_discarded j next s)) (sym same) ∙ is_discarded-mark_self h
      | no other ↦ is_discarded-mark_ne a other ∙ o.replaced a b (sym (next_of-mark_ne a other) ∙ e)
    ];
  }

module _ {A : Type 0} {s s' : Store A} (x : Extends s s') where
  pub is_discarded-kept : (k : ℕ) → k < length s → is_discarded s' k ≡ is_discarded s k
  unfolding is_discarded
  is_discarded-kept k h = rw (x.kept k h, is_discarded)

  next_of-kept : (k : ℕ) → k < length s → next_of s' k ≡ next_of s k
  unfolding next_of
  next_of-kept k h = rw (x.kept k h, next_of)

  pub Follows-kept : {i j : ℕ} → IsOrdered s → Follows s i j → i < length s → Follows s' i j
  Follows-kept o (Follows.here i) valid = Follows.here i
  Follows-kept o (Follows.next {i} {j} e f) valid =
      Follows.next (next_of-kept i valid ∙ e) (Follows-kept o f (o.newer i j e).1)

  -- Discarding a live state changes no replacement that leads to it.
  pub Follows-mark :
      (o : IsOrdered s) (next : Option ℕ) {i j : ℕ}
      → Follows s i j
      → i < length s
      → is_discarded s j ≡ false
      → Follows (mark_discarded j next s') i j
  Follows-mark o next (Follows.here i) valid live = Follows.here i
  Follows-mark o next (Follows.next {i} {j} {k} e f) valid live =
      let (newer, valid') = o.newer i j e in
      let other : k ≢ i =
        λ same. true≢false (sym (o.replaced i j e) ∙ ap (is_discarded s) (sym same) ∙ live) in
      Follows.next (next_of-mark_ne s' k next i other ∙ next_of-kept i valid ∙ e)
        (Follows-mark o next f valid' live)

pub Follows-trans :
    {A : Type 0} {s : Store A} {i j k : ℕ} → Follows s i j → Follows s j k → Follows s i k
Follows-trans (Follows.here i) g = g
Follows-trans (Follows.next e f) g = Follows.next e (Follows-trans f g)
