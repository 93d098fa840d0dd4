-- ===== src/Tests/Replacements.antt =====
-- State objects and their replacements: packages/client/src/State.ts.
use logion_api.Common.{
  ℕ, zero, suc, ◌<◌, ◌≡◌, refl, true, false, String, Option, some, none, [], ◌∷◌, ok, throw, arith,
  get_elem?, length,
}
use logion_api.State.{
  Store, Method, is_discarded, next_of, ensure_current, mark_discarded, discard, follow,
  get_current_state, get_current_state_or_throw, replace_on_success, discard_on_success, finalize,
  finalize_on_success, new_state,
}
use logion_api.State.Chain.{IsOrdered, Ends, get_current_state-Ends}
use logion_api.State.Marking.{Extends}
use logion_api.State.Transitions.{
  current, MakesState, discard_on_success-replaces, discard_on_success-throws,
}

states : Unit {0}
unfolding is_discarded next_of ensure_current mark_discarded discard follow get_current_state
    get_current_state_or_throw replace_on_success discard_on_success finalize finalize_on_success
    new_state
states = tt

-- A first state that a second one has replaced.
abbrev two_states : Store String
two_states =
    record { discarded = true; next_state = some 1; content = "draft" }
    ∷ record { discarded = false; next_state = none; content = "pending" }
    ∷ []

abbrev three_states : Store String
three_states =
    record { discarded = true; next_state = some 1; content = "draft" }
    ∷ record { discarded = false; next_state = none; content = "pending" }
    ∷ record { discarded = false; next_state = none; content = "accepted" }
    ∷ []

two_states-newer : (i j : ℕ) → next_of two_states i ≡ some j → (i < j) × (j < length two_states)
unfolding states
two_states-newer zero j e = ground arith
two_states-newer (suc zero) j e = cc
two_states-newer (suc (suc i)) j e = cc

two_states-replaced : (i j : ℕ) → next_of two_states i ≡ some j → is_discarded two_states i ≡ true
unfolding states
two_states-replaced zero j e = refl
two_states-replaced (suc zero) j e = cc
two_states-replaced (suc (suc i)) j e = cc

two_states-IsOrdered : IsOrdered two_states
two_states-IsOrdered = record { newer = two_states-newer; replaced = two_states-replaced }

three_states-newer :
    (i j : ℕ) → next_of three_states i ≡ some j → (i < j) × (j < length three_states)
unfolding states
three_states-newer zero j e = ground arith
three_states-newer (suc zero) j e = cc
three_states-newer (suc (suc zero)) j e = cc
three_states-newer (suc (suc (suc i))) j e = cc

three_states-replaced :
    (i j : ℕ) → next_of three_states i ≡ some j → is_discarded three_states i ≡ true
unfolding states
three_states-replaced zero j e = refl
three_states-replaced (suc zero) j e = cc
three_states-replaced (suc (suc zero)) j e = cc
three_states-replaced (suc (suc (suc i))) j e = cc

kept_two : (k : ℕ) → k < length two_states → get_elem? three_states k ≡ get_elem? two_states k
kept_two zero h = refl
kept_two (suc zero) h = refl
kept_two (suc (suc k)) h = absurd (omega arith)

makes_third : MakesState two_states 2 three_states
unfolding states
makes_third = record {
  others = record { grown = omega arith; kept = kept_two };
  ordered = record { newer = three_states-newer; replaced = three_states-replaced };
  created = omega arith;
  exists = omega arith;
  live = refl;
}

abbrev accept : ℕ → Method String ℕ
accept i = new_state "accepted"

abbrev fail : ℕ → Method String ℕ
fail i s = (throw "rejected", s)

abbrev fail_to_finish : ℕ → Method String (Unit {0})
fail_to_finish i s = (throw "rejected", s)

current_of_first : current two_states 0 ≡ some (some 1)
unfolding states
current_of_first = refl

accepted : accept 1 two_states ≡ (ok 2, three_states)
unfolding states
accepted = refl

discard_on_success-replaces_example :
    (discard_on_success 3 accept 0 two_states ≡ some (ok 2, mark_discarded 1 (some 2) three_states))
    × (current (mark_discarded 1 (some 2) three_states) 0 ≡ some (some 2))
    × (ensure_current 1 (mark_discarded 1 (some 2) three_states) ≡ throw "State was discarded")
    × IsOrdered (mark_discarded 1 (some 2) three_states)
discard_on_success-replaces_example =
    discard_on_success-replaces two_states two_states-IsOrdered 0 (omega arith) 1 current_of_first
      accept 2 three_states accepted makes_third

unchanged : Extends two_states two_states
unchanged = record { grown = omega arith; kept = λ k h. refl }

discard_on_success-throws_example :
    (discard_on_success 3 fail 0 two_states ≡ some (throw "rejected", two_states))
    × (current two_states 0 ≡ some (some 1))
discard_on_success-throws_example =
    discard_on_success-throws two_states two_states-IsOrdered 0 (omega arith) 1 current_of_first
      fail "rejected" two_states refl unchanged two_states-IsOrdered

get_current_state-Ends_example :
    (r : Option ℕ) × (get_current_state 3 0 two_states ≡ some r) × Ends two_states 0 r
get_current_state-Ends_example =
    get_current_state-Ends two_states two_states-IsOrdered 0 (omega arith)
