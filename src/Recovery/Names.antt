-- ===== src/Recovery/Names.antt =====
-- The classes that `getInitialState` tries, packages/client/src/Recovery.ts, in their order.
use logion_api.Common.{
  ℕ, ◌+◌, ◌≡◌, refl, sym, ap, String, Bool, true, false, not, ◌&&◌, List, [], ◌∷◌, length, ◌==◌,
  ltb, Result, ok, >>=-eq-ok, ok-inj,
}
use logion_api.Recovery.{
  FetchAllResult, RecoverySharedState, ProtectionState, StateName, no_protection,
  pending_protection, accepted_protection, active_protection, pending_recovery, claimed_recovery,
  unavailable_protection, rejected_recovery, is_defined, enter, enter_with_two, first_match,
  choose_state, first_is_recovery,
}

-- The class of the state as a table of what is known.
abbrev pub names :
    (configured recovered first : Bool) (pendings accepteds rejecteds : ℕ) → List (Bool × StateName)
names configured recovered first pendings accepteds rejecteds =
    (not configured && not recovered && (pendings + accepteds + rejecteds == 0), no_protection)
    ∷ (configured && not recovered && (pendings + accepteds + rejecteds == 0), active_protection)
    ∷ (configured && recovered, claimed_recovery)
    ∷ (configured && not recovered && first, pending_recovery)
    ∷ (not configured && not recovered && (accepteds == 2), accepted_protection)
    ∷ (not configured && not recovered && (pendings == 2), pending_protection)
    ∷ (not configured && not recovered && (pendings == 1) && (accepteds == 1), pending_protection)
    ∷ (not configured && not recovered && ltb 0 rejecteds, rejected_recovery)
    ∷ (configured, unavailable_protection)
    ∷ []

pub record Named (name : StateName) (r : Result ProtectionState) : Type 0 where
  pub same_name : (s : ProtectionState) → r ≡ ok s → s.name ≡ name

AllNamed : List (Bool × StateName) → List (Bool × Result ProtectionState) → Type 0
AllNamed [] [] = Unit
AllNamed [] (c ∷ cases) = ⊥
AllNamed (n ∷ ns) [] = ⊥
AllNamed ((test, name) ∷ ns) ((test', result) ∷ cases) =
    (test ≡ test') × (Named name result × AllNamed ns cases)

first_match-Named :
    (ns : List (Bool × StateName)) (cases : List (Bool × Result ProtectionState)) (name : StateName)
    (last : Result ProtectionState)
    → AllNamed ns cases
    → Named name last
    → Named (first_match ns name) (first_match cases last)
unfolding first_match AllNamed
first_match-Named [] [] name last all h = h
first_match-Named [] (c ∷ cases) name last all h = absurd all
first_match-Named (n ∷ ns) [] name last all h = absurd all
first_match-Named ((true, n) ∷ ns) ((true, result) ∷ cases) name last (e, (first, all)) h = first
first_match-Named ((true, n) ∷ ns) ((false, result) ∷ cases) name last (e, (first, all)) h = cc
first_match-Named ((false, n) ∷ ns) ((true, result) ∷ cases) name last (e, (first, all)) h = cc
first_match-Named ((false, n) ∷ ns) ((false, result) ∷ cases) name last (e, (first, all)) h =
    first_match-Named ns cases name last all h

Named-enter :
    (name : StateName) (state : RecoverySharedState) (selected : List String)
    → Named name (ok (enter name state selected))
unfolding enter
Named-enter name state selected = record {
  same_name = λ s e. sym (ap (λ (t : ProtectionState). t.name) (ok-inj e));
}

Named-two :
    (name : StateName) (state : RecoverySharedState) (first second : Result String)
    → Named name (enter_with_two name state first second)
unfolding enter_with_two enter
Named-two name state first second = record {
  same_name = λ s e.
      let (officer1, known1, e') = >>=-eq-ok first _ e in
      let (officer2, known2, made) = >>=-eq-ok second _ e' in
      sym (ap (λ (t : ProtectionState). t.name) (ok-inj made));
}

unfoldable pub names_of : FetchAllResult → List (Bool × StateName)
names_of fetched =
    names (is_defined fetched.recovery_config) (is_defined fetched.recovered_address)
      (first_is_recovery fetched.accepted) (length fetched.pending) (length fetched.accepted)
      (length fetched.rejected)

pub choose_state-Named :
    (fetched : FetchAllResult) (state : RecoverySharedState)
    → Named (first_match (names_of fetched) unavailable_protection) (choose_state fetched state)
unfolding choose_state AllNamed names_of
choose_state-Named fetched state =
    first_match-Named _ _ _ _
      ((
        refl,
        (
          Named-enter _ _ _,
          (
            refl,
            (
              Named-enter _ _ _,
              (
                refl,
                (
                  Named-enter _ _ _,
                  (
                    refl,
                    (
                      Named-two _ _ _ _,
                      (
                        refl,
                        (
                          Named-two _ _ _ _,
                          (
                            refl,
                            (
                              Named-two _ _ _ _,
                              (
                                refl,
                                (
                                  Named-two _ _ _ _,
                                  (refl, (Named-two _ _ _ _, (refl, (Named-enter _ _ _, tt)))),
                                ),
                              ),
                            ),
                          ),
                        ),
                      ),
                    ),
                  ),
                ),
              ),
            ),
          ),
        ),
      ))
      (Named-enter _ _ _)
