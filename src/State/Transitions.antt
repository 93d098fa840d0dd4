-- ===== src/State/Transitions.antt =====
-- What `discardOnSuccess` and `finalizeOnSuccess` of packages/client/src/State.ts do to the
-- current state, for whatever action they run.
use logion_api.Common.{
  ℕ, suc, ◌≤◌, ◌<◌, ◌≡◌, ◌≢◌, sym, ap, ◌∙◌, true, false, String, Option, some, length, arith,
  Result, ok, throw,
}
use mathlib.Core.Path.{subst}
use logion_api.State.{
  Store, Method, is_discarded, ensure_current, mark_discarded, discard, get_current_state,
  get_current_state_or_throw, replace_on_success, discard_on_success,
}
use logion_api.State.Chain.{
  IsOrdered, Follows, Ends, Follows-length, get_current_state-Ends, get_current_state_of_Ends,
}
use logion_api.State.Marking.{
  Extends, length-mark, is_discarded-mark_self, next_of-mark_self, mark-IsOrdered,
  is_discarded-kept, is_discarded-mark_ne, Follows-mark, Follows-kept, Follows-trans,
}

-- The current state of `i`, with fuel for the whole store.
abbrev pub current : {A : Type 0} → Store A → ℕ → Option (Option ℕ)
current s i = get_current_state (suc (length s)) i s

-- What an action did when it made a new state and left the others alone.
pub record MakesState {A : Type 0} (s : Store A) (next : ℕ) (s' : Store A) : Type 0 where
  pub others : Extends s s'
  pub ordered : IsOrdered s'
  pub created : length s ≤ next
  pub exists : next < length s'
  pub live : is_discarded s' next ≡ false

discarded_message :
    {A : Type 0} (s : Store A) (i : ℕ)
    → is_discarded s i ≡ true
    → ensure_current i s ≡ throw "State was discarded"
unfolding ensure_current
discarded_message s i h = rw h

discard_live :
    {A : Type 0} (s : Store A) (j : ℕ) (next : Option ℕ)
    → is_discarded s j ≡ false
    → discard j next s ≡ (ok tt, mark_discarded j next s)
unfolding discard ensure_current
discard_live s j next h = rw (h, discard, ensure_current)

replace_live :
    {A : Type 0} (s : Store A) (j next : ℕ)
    → is_discarded s j ≡ false
    → replace_on_success j (ok next, s) ≡ (ok next, mark_discarded j (some next) s)
unfolding replace_on_success
replace_live {A} s j next h =
    let e = discard_live s j (some next) h in
    rw (e, replace_on_success) (ap (λ (d : Result (Unit {0}) × Store A). ((ok next, d.1))) e)

module _ {A : Type 0} (s : Store A) (o : IsOrdered s) (i : ℕ) (valid : i < length s) where
  current-Ends : (r : Option ℕ) → current s i ≡ some r → Ends s i r
  current-Ends r h =
      let (q, found, ends) = get_current_state-Ends s o i valid in
      let same : q ≡ r = cc (sym found ∙ h) in subst (Ends s i) same ends

  or_throw-current :
      (j : ℕ)
      → current s i ≡ some (some j)
      → get_current_state_or_throw (suc (length s)) i s ≡ some (ok j)
  unfolding get_current_state_or_throw
  or_throw-current j h = rw (h, get_current_state_or_throw)

  module _ (j : ℕ) (now : current s i ≡ some (some j)) where
    current-lt : j < length s
    current-lt = (Follows-length s o (current-Ends (some j) now).0 valid).1

    current-live : is_discarded s j ≡ false
    current-live = (current-Ends (some j) now).1

    to_current : Follows s i j
    to_current = (current-Ends (some j) now).0

    -- The current state, once discarded, hands over to its replacement, ...
    current-mark_some :
        (n : ℕ) (s' : Store A)
        → Extends s s'
        → IsOrdered (mark_discarded j (some n) s')
        → is_discarded (mark_discarded j (some n) s') n ≡ false
        → current (mark_discarded j (some n) s') i ≡ some (some n)
    current-mark_some n s' x o' live =
        let s'' = mark_discarded j (some n) s' in
        let there : i < length s'' = omega (arith, length-mark s' j (some n), x.grown) in
        let here : j < length s' = omega (arith, current-lt, x.grown) in
        get_current_state_of_Ends s'' o' i (some n) there (
          Follows-trans (Follows-mark x o (some n) to_current valid current-live)
              (Follows.next (next_of-mark_self s' j (some n) here) (Follows.here n)),
          live,
        )

    discard_on_success-current :
        (action : ℕ → Method A ℕ)
        → discard_on_success (suc (length s)) action i s ≡ some (replace_on_success j (action j s))
    unfolding discard_on_success
    discard_on_success-current action = rw (or_throw-current j now, discard_on_success)

    -- A transition whose action makes a new state: the action's result is returned, the state that
    -- was current is discarded and refuses further use, and the new state is the current one of
    -- every state whose current one it replaces.
    pub discard_on_success-replaces :
        (action : ℕ → Method A ℕ) (next : ℕ) (s' : Store A)
        → action j s ≡ (ok next, s')
        → MakesState s next s'
        → (discard_on_success (suc (length s)) action i s
            ≡ some (ok next, mark_discarded j (some next) s'))
          × (current (mark_discarded j (some next) s') i ≡ some (some next))
          × (ensure_current j (mark_discarded j (some next) s') ≡ throw "State was discarded")
          × IsOrdered (mark_discarded j (some next) s')
    discard_on_success-replaces action next s' acted m =
        let s'' = mark_discarded j (some next) s' in
        let older : j < length s = current-lt in
        let here : j < length s' = omega (arith, older, m.others.grown) in
        let ordered : IsOrdered s'' = mark-IsOrdered s' j (some next) m.ordered here (λ n e.
          let same : next ≡ n = cc in
          subst (λ (t : ℕ). (j < t) × (t < length s')) same (omega (arith, m.created), m.exists)) in
        let other : j ≢ next = λ e. absurd (omega (arith, m.created, older, e)) in
        let live : is_discarded s'' next ≡ false =
          is_discarded-mark_ne s' j (some next) next other ∙ m.live in
        let still_live : is_discarded s' j ≡ false =
          is_discarded-kept m.others j older ∙ current-live in
        (
          discard_on_success-current action
              ∙ ap (λ (r : Result ℕ × Store A). some (replace_on_success j r)) acted
              ∙ ap some (replace_live s' j next still_live),
          current-mark_some next s' m.others ordered live,
          discarded_message s'' j (is_discarded-mark_self s' j (some next) here),
          ordered,
        )

    -- A transition whose action throws passes the error on and discards nothing: what was the
    -- current state is still the current one.
    pub discard_on_success-throws :
        (action : ℕ → Method A ℕ) (message : String) (s' : Store A)
        → action j s ≡ (throw message, s')
        → Extends s s'
        → IsOrdered s'
        → (discard_on_success (suc (length s)) action i s ≡ some (throw message, s'))
          × (current s' i ≡ some (some j))
    unfolding replace_on_success
    discard_on_success-throws action message s' acted x o' = (
      discard_on_success-current action
          ∙ ap (λ (r : Result ℕ × Store A). some (replace_on_success j r)) acted,
      get_current_state_of_Ends s' o' i (some j) (omega (arith, x.grown))
          (Follows-kept x o to_current valid, is_discarded-kept x j current-lt ∙ current-live),
    )
