-- ===== src/Calls/Sequences.antt =====
-- The calls of a sequence of steps.
use logion_api.Common.{
  ◌≡◌, refl, sym, ap, subst, ◌⊎◌, inl, inr, String, List, [], ◌∷◌, ◌++◌, Result, ok, throw,
}
use logion_api.Calls.{
  Call, Verb, Piece, Body, request, CallError, new_backend_error, Outcome, done, failed, Outside,
  Run, and_then, ◌>>=◌, backend, answered,
}

-- the calls belong to the first elements, in their order
abbrev pub Begun : {A C : Type 0} → (A → C → Type 0) → List A → List C → Type 0
Begun R as_ [] = Unit
Begun R [] (c ∷ cs) = ⊥
Begun R (a ∷ as_) (c ∷ cs) = R a c × Begun R as_ cs

-- every call
abbrev pub Each : {C : Type 0} → (C → Type 0) → List C → Type 0
Each P [] = Unit
Each P (c ∷ cs) = P c × Each P cs

Each-append :
    {C : Type 0} (P : C → Type 0) (cs ds : List C) → Each P cs → Each P ds → Each P (cs ++ ds)
Each-append P [] ds h k = k
Each-append P (c ∷ cs) ds (h, hs) k = (h, Each-append P cs ds hs k)

pub append_nil : {A : Type 0} (xs : List A) → xs ++ [] ≡ xs
append_nil [] = refl
append_nil (x ∷ xs) = ap (λ (ys : List _). x ∷ ys) (append_nil xs)

module _ {T W : Type 0} where
  pub run-cases :
      {A : Type 0} (r : Result A × List (Call T) × W)
      → ((message : String) × (calls : List (Call T)) × (w : W) × (r ≡ (throw message, calls, w)))
        ⊎ ((a : A) × (calls : List (Call T)) × (w : W) × (r ≡ (ok a, calls, w)))
  run-cases (throw message, calls, w) = inl (message, calls, w, refl)
  run-cases (ok a, calls, w) = inr (a, calls, w, refl)

  module _ {A B : Type 0} (first : Run T W A) (after : A → Run T W B) (w : W) where
    pub then_throw :
        (message : String) (calls : List (Call T)) (w' : W)
        → first w ≡ (throw message, calls, w')
        → (first >>= after) w ≡ (throw message, calls, w')
    unfolding ◌>>=◌ and_then
    then_throw message calls w' e = ap (λ (r : Result A × List (Call T) × W). and_then r after) e

    pub then_ok :
        (a : A) (calls : List (Call T)) (w' : W)
        → first w ≡ (ok a, calls, w')
        → (first >>= after) w ≡ ((after a w').0, calls ++ (after a w').1, (after a w').2)
    unfolding ◌>>=◌ and_then
    then_ok a calls w' e = ap (λ (r : Result A × List (Call T) × W). and_then r after) e

  pub backend-cases :
      (outside : Outside T W) (verb : Verb) (path : List Piece) (body : Body) (w : W)
      → ((error : CallError) × (w' : W) × (backend outside verb path body w
            ≡ (throw (new_backend_error error), request verb path body ∷ [], w')))
        ⊎ ((w' : W) × (backend outside verb path body w ≡ (ok tt, request verb path body ∷ [], w')))
  unfolding backend answered
  backend-cases outside verb path body w = go (outside (request verb path body) w)
    where
      go :
          (o : Outcome × W)
          → ((error : CallError) × (w' : W) × (answered outside new_backend_error
                  (request verb path body)
                  o
                ≡ (throw (new_backend_error error), request verb path body ∷ [], w')))
            ⊎ ((w' : W) × (answered outside new_backend_error (request verb path body) o
                  ≡ (ok tt, request verb path body ∷ [], w')))
      go (failed error, w') = inl (error, w', refl)
      go (done, w') = inr (w', refl)

  pub Each-then :
      {A B : Type 0} (P : Call T → Type 0) (first : Run T W A) (after : A → Run T W B) (w : W)
      → Each P (first w).1
      → ((a : A) (w' : W) → Each P (after a w').1)
      → Each P ((first >>= after) w).1
  Each-then {A} {B} P first after w h k = elim (run-cases (first w)) [
    | inl (message, calls, w', e) ↦
        subst (λ (r : Result B × List (Call T) × W). Each P r.1)
          (sym (then_throw first after w message calls w' e))
          (subst (λ (r : Result A × List (Call T) × W). Each P r.1) e h)
    | inr (a, calls, w', e) ↦
        subst (λ (r : Result B × List (Call T) × W). Each P r.1)
          (sym (then_ok first after w a calls w' e))
          (Each-append P calls (after a w').1
            (subst (λ (r : Result A × List (Call T) × W). Each P r.1) e h) (k a w'))
  ]
