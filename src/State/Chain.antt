-- ===== src/State/Chain.antt =====
-- Following the replacements of a state, packages/client/src/State.ts.
use logion_api.Common.{
  ℕ, zero, suc, ◌+◌, ◌≤◌, ◌<◌, ◌≡◌, refl, sym, ap, ◌∙◌, true, false, Option, none, some, length,
  arith, inl, inr, Bool-cases, Option-cases,
}
use mathlib.Core.Bool.{true≢false}
use mathlib.Core.Path.{subst}
use logion_api.State.{Store, is_discarded, next_of, follow, get_current_state}

-- Replacements are newer than what they replace, and only a discarded state has one.
pub record IsOrdered {A : Type 0} (s : Store A) : Type 0 where
  pub newer : (i j : ℕ) → next_of s i ≡ some j → (i < j) × (j < length s)
  pub replaced : (i j : ℕ) → next_of s i ≡ some j → is_discarded s i ≡ true

-- `Follows s i j`: following the replacements from `i` leads to `j`.
pub data Follows {A : Type 0} (s : Store A) : ℕ → ℕ → Type 0 where
  here : (i : ℕ) → Follows s i i
  next : {i j k : ℕ} → next_of s i ≡ some j → Follows s j k → Follows s i k

-- Where the replacements of `i` come to an end: at a live state, or at a state that was discarded
-- without replacement.
abbrev pub Ends : {A : Type 0} → Store A → ℕ → Option ℕ → Type 0
Ends s i none = (j : ℕ) × Follows s i j × (is_discarded s j ≡ true) × (next_of s j ≡ none)
Ends s i (some j) = Follows s i j × (is_discarded s j ≡ false)

module _ {A : Type 0} (s : Store A) (o : IsOrdered s) where
  follow-Ends :
      (fuel i : ℕ)
      → i < length s
      → length s < fuel + i
      → is_discarded s i ≡ true
      → (r : Option ℕ) × (follow fuel s (next_of s i) ≡ some r) × Ends s i r
  unfolding follow
  follow-Ends zero i valid bound gone = absurd (omega arith)
  follow-Ends (suc fuel) i valid bound gone = elim (Option-cases (next_of s i)) [
    | inl last ↦ (none, rw last, (i, Follows.here i, gone, last))
    | inr (j, e) ↦
        let (newer, valid') = o.newer i j e in
        elim (Bool-cases (is_discarded s j)) [
          | inl gone' ↦
              let (r, found, ends) = follow-Ends fuel j valid' (omega arith) gone' in
              (r, rw (e, gone') found, step i j e r ends)
          | inr live ↦ (some j, rw (e, live), (Follows.next e (Follows.here j), live))
        ]
  ]
    where
      step : (i j : ℕ) → next_of s i ≡ some j → (r : Option ℕ) → Ends s j r → Ends s i r
      step i j e none (k, chain, gone, last) = (k, Follows.next e chain, gone, last)
      step i j e (some k) (chain, live) = (Follows.next e chain, live)

  -- With fuel for every state of the store, `getCurrentState` ends: at a live state that the
  -- replacements lead to, or with no state where they lead to one discarded without replacement.
  pub get_current_state-Ends :
      (i : ℕ)
      → i < length s
      → (r : Option ℕ) × (get_current_state (suc (length s)) i s ≡ some r) × Ends s i r
  unfolding get_current_state
  get_current_state-Ends i valid = elim (Bool-cases (is_discarded s i)) [
    | inl gone ↦ rw gone (follow-Ends (suc (length s)) i valid (omega arith) gone)
    | inr live ↦ rw live (some i, refl, (Follows.here i, live))
  ]

  pub Follows-length : {i j : ℕ} → Follows s i j → i < length s → (i ≤ j) × (j < length s)
  Follows-length (Follows.here i) h = (omega arith, h)
  Follows-length (Follows.next e f) h =
      let (newer, valid) = o.newer _ _ e in
      let (more, valid') = Follows-length f valid in (omega arith, valid')

  next_of_live : (i : ℕ) → is_discarded s i ≡ false → next_of s i ≡ none
  next_of_live i live = elim (Option-cases (next_of s i)) [
    | inl last ↦ last
    | inr (j, e) ↦ absurd (true≢false (sym (o.replaced i j e) ∙ live))
  ]

  same_end :
      {i j k : ℕ} → Follows s i j → Follows s i k → next_of s j ≡ none → next_of s k ≡ none → j ≡ k
  same_end (Follows.here i) (Follows.here _) p q = refl
  same_end (Follows.here i) (Follows.next e f) p q = cc
  same_end (Follows.next e f) (Follows.here _) p q = cc
  same_end (Follows.next {j = x} {k = y} e f) (Follows.next {j = x'} e' f') p q =
      let same : x ≡ x' = cc in same_end (subst (λ (t : ℕ). Follows s t y) same f) f' p q

  Ends-once : (i : ℕ) (q r : Option ℕ) → Ends s i q → Ends s i r → q ≡ r
  Ends-once i none none a b = refl
  Ends-once i (some j) (some k) (f, live) (g, live') =
      ap some (same_end f g (next_of_live j live) (next_of_live k live'))
  Ends-once i none (some k) (j, f, gone, last) (g, live) =
      let e = same_end f g last (next_of_live k live) in
      absurd (true≢false (sym gone ∙ ap (is_discarded s) e ∙ live))
  Ends-once i (some k) none (g, live) (j, f, gone, last) =
      let e = same_end f g last (next_of_live k live) in
      absurd (true≢false (sym gone ∙ ap (is_discarded s) e ∙ live))

  -- Where the replacements of a state end is what `getCurrentState` returns.
  pub get_current_state_of_Ends :
      (i : ℕ) (r : Option ℕ)
      → i < length s
      → Ends s i r
      → get_current_state (suc (length s)) i s ≡ some r
  get_current_state_of_Ends i r valid ends =
      let (q, found, ends') = get_current_state-Ends i valid in
      found ∙ ap some (Ends-once i q r ends' ends)
