-- ===== src/State/Live.antt =====
-- Methods of packages/client/src/State.ts, called on a state that is not discarded.
use logion_api.Common.{ℕ, ◌≡◌, ap, false, true, some, get_elem?, set, Result, ok}
use logion_api.State.{
  Cell, Store, Method, is_discarded, ensure_current, mark_discarded, discard, get_current_state,
  get_current_state_or_throw, replace_on_success, run_on, discard_on_success,
}

module _ {A : Type 0} (s : Store A) (i : ℕ) (live : is_discarded s i ≡ false) where
  get_current_state_live : (fuel : ℕ) → get_current_state fuel i s ≡ some (some i)
  unfolding get_current_state
  get_current_state_live fuel = rw (live)

  -- The action is run on the state itself.
  pub discard_on_success_live :
      (fuel : ℕ) (action : ℕ → Method A ℕ)
      → discard_on_success fuel action i s ≡ some (replace_on_success i (action i s))
  unfolding discard_on_success get_current_state_or_throw run_on
  discard_on_success_live fuel action =
      rw (get_current_state_live fuel, discard_on_success, get_current_state_or_throw)

  -- What the `finally` block does, when the action made a state.
  pub replace_on_success_live :
      (next : ℕ) (c : Cell A)
      → get_elem? s i ≡ some c
      → replace_on_success i (ok next, s)
        ≡ (ok next, set s i (record c { discarded = true; next_state = some next }))
  unfolding replace_on_success discard ensure_current mark_discarded
  replace_on_success_live next c found =
      let discarded : discard i (some next) s
          ≡ (ok tt, set s i (record c { discarded = true; next_state = some next })) =
        rw (live, found, discard, ensure_current, mark_discarded) in
      rw (discarded, replace_on_success)
        (ap (λ (d : Result (Unit {0}) × Store A). ((ok next, d.1))) discarded)
