-- ===== src/State.antt =====
-- class State of packages/client/src/State.ts: state objects that are discarded and point to the
-- state that replaces them. The objects live in a store, and a reference is an index of it.
pub mod Chain
pub mod Marking
pub mod Transitions
pub mod Live
use logion_api.Common.{
  ℕ, zero, suc, String, Bool, true, false, not, Option, none, some, List, [], ◌∷◌, ◌++◌, length,
  get_elem?, set, Result, ok, throw, if◌then◌else◌,
}

-- `content` is what the subclass adds.
pub record Cell (A : Type 0) : Type 0 where
  pub discarded : Bool
  pub next_state : Option ℕ
  pub content : A

abbrev pub Store : Type 0 → Type 0
Store A = List (Cell A)

-- A method may throw, and keeps the changes that it made to the store.
abbrev pub Method : Type 0 → Type 0 → Type 0
Method A B = Store A → Result B × Store A

abbrev pub no_replacement : Result ℕ
no_replacement = throw "State was discarded without replacement"

module _ {A : Type 0} where
  -- `new State()`, with the content of the subclass
  unfoldable pub new_state : A → Method A ℕ
  new_state content s =
      (ok (length s), s ++ record { discarded = false; next_state = none; content = content } ∷ [])

  -- `get discarded()`; there is no object behind a reference out of range
  unfoldable pub is_discarded : Store A → ℕ → Bool
  is_discarded s i = elim (get_elem? s i) [ none ↦ true | some c ↦ c.discarded ]

  unfoldable pub next_of : Store A → ℕ → Option ℕ
  next_of s i = elim (get_elem? s i) [ none ↦ none | some c ↦ c.next_state ]

  -- `ensureCurrent()`
  unfoldable pub ensure_current : ℕ → Store A → Result (Unit {0})
  ensure_current i s = if is_discarded s i then throw "State was discarded" else ok tt

  -- the two assignments of `discard`
  unfoldable pub mark_discarded : ℕ → Option ℕ → Store A → Store A
  mark_discarded i next s = elim (get_elem? s i) [
    | none ↦ s
    | some c ↦ set s i (record c { discarded = true; next_state = next })
  ]

  unfoldable pub discard : ℕ → Option ℕ → Method A (Unit {0})
  discard i next s = elim (ensure_current i s) [
    | throw message ↦ (throw message, s)
    | ok _ ↦ (ok tt, mark_discarded i next s)
  ]

  -- the loop of `getCurrentState`, on fuel; the outer `none` says that the fuel ran out
  unfoldable pub follow : ℕ → Store A → Option ℕ → Option (Option ℕ)
  follow zero s next = none
  follow (suc fuel) s none = some none
  follow (suc fuel) s (some j) =
      let rest = follow fuel s (next_of s j) in if is_discarded s j then rest else some (some j)

  unfoldable pub get_current_state : ℕ → ℕ → Store A → Option (Option ℕ)
  get_current_state fuel i s =
      if is_discarded s i then follow fuel s (next_of s i) else some (some i)

  -- `getCurrentStateOrThrow()`
  unfoldable pub get_current_state_or_throw : ℕ → ℕ → Store A → Option (Result ℕ)
  get_current_state_or_throw fuel i s = elim (get_current_state fuel i s) [
    | none ↦ none
    | some none ↦ some no_replacement
    | some (some j) ↦ some (ok j)
  ]

  -- the `finally` block of `discardOnSuccess`: an error there replaces the result
  unfoldable pub replace_on_success : ℕ → Result ℕ × Store A → Result ℕ × Store A
  replace_on_success current (throw message, s) = (throw message, s)
  replace_on_success current (ok next, s) =
      let (r, s') = discard current (some next) s in
      elim r [ throw message ↦ (throw message, s') | ok _ ↦ (ok next, s') ]

  run_on : Result ℕ → (ℕ → Method A ℕ) → Method A ℕ
  run_on (throw message) action s = (throw message, s)
  run_on (ok current) action s = replace_on_success current (action current s)

  -- `discardOnSuccess` and `syncDiscardOnSuccess`: the action gets the current state
  unfoldable pub discard_on_success :
      ℕ → (ℕ → Method A ℕ) → ℕ → Store A → Option (Result ℕ × Store A)
  unfolding run_on
  discard_on_success fuel action i s = elim (get_current_state_or_throw fuel i s) [
    | none ↦ none
    | some r ↦ some (run_on r action s)
  ]

  -- the `finally` block of `finalizeOnSuccess`, which also runs when the action has thrown
  unfoldable pub finalize : ℕ → Result (Unit {0}) × Store A → Result (Unit {0}) × Store A
  finalize current (r, s) =
      let (r', s') = discard current none s in
      elim r' [ throw message ↦ (throw message, s') | ok _ ↦ (r, s') ]

  finalize_with : Result ℕ → (ℕ → Method A (Unit {0})) → Method A (Unit {0})
  finalize_with (throw message) action s = (throw message, s)
  finalize_with (ok current) action s = finalize current (action current s)

  unfoldable pub finalize_on_success :
      ℕ → (ℕ → Method A (Unit {0})) → ℕ → Store A → Option (Result (Unit {0}) × Store A)
  unfolding finalize_with
  finalize_on_success fuel action i s = elim (get_current_state_or_throw fuel i s) [
    | none ↦ none
    | some r ↦ some (finalize_with r action s)
  ]
