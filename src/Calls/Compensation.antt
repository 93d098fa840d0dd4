-- ===== src/Calls/Compensation.antt =====
-- A request that prepares the backend for a transaction, the transaction, and the request that
-- cancels the preparation: how such a sequence ends.
use logion_api.Common.{
  ◌≡◌, refl, sym, ap, subst, ◌∙◌, ◌⊎◌, inl, inr, String, List, [], ◌∷◌, ◌++◌, Result, ok, throw,
  Result-cases, Bool, true, false, if◌then◌else◌,
}
use logion_api.Common
use logion_api.Calls.{
  Call, Verb, Piece, Body, request, sign_and_send, CallError, new_backend_error, Outcome, done,
  failed, Outside, Run, reading, ◌>>=◌, ◌>>◌, backend, sign, try_catch, try_catch_unawaited,
}

-- The sequence is given up at its first step that fails: nothing is asked when the checks fail, and
-- the preparation is cancelled exactly when the transaction has failed; an error of the cancellation
-- is lost when it is not awaited.
pub data Compensated {T W : Type 0} (outside : Outside T W) (awaited : Bool)
    (checks : Result (Unit {0})) (prepare sent cancel : Call T) (w : W) (result : Result (Unit {0}))
    (calls : List (Call T)) : Type 0 where
  refused :
      (message : String)
      → checks ≡ throw message
      → result ≡ throw message
      → calls ≡ []
      → Compensated outside awaited checks prepare sent cancel w result calls
  unprepared :
      (error : CallError) (w₁ : W)
      → checks ≡ ok tt
      → outside prepare w ≡ (failed error, w₁)
      → result ≡ throw (new_backend_error error)
      → calls ≡ prepare ∷ []
      → Compensated outside awaited checks prepare sent cancel w result calls
  submitted :
      (w₁ w₂ : W)
      → checks ≡ ok tt
      → outside prepare w ≡ (done, w₁)
      → outside sent w₁ ≡ (done, w₂)
      → result ≡ ok tt
      → calls ≡ prepare ∷ sent ∷ []
      → Compensated outside awaited checks prepare sent cancel w result calls
  cancelled :
      (error : CallError) (w₁ w₂ w₃ : W)
      → checks ≡ ok tt
      → outside prepare w ≡ (done, w₁)
      → outside sent w₁ ≡ (failed error, w₂)
      → outside cancel w₂ ≡ (done, w₃)
      → result ≡ throw error.message
      → calls ≡ prepare ∷ sent ∷ cancel ∷ []
      → Compensated outside awaited checks prepare sent cancel w result calls
  uncancelled :
      (error error' : CallError) (w₁ w₂ w₃ : W)
      → checks ≡ ok tt
      → outside prepare w ≡ (done, w₁)
      → outside sent w₁ ≡ (failed error, w₂)
      → outside cancel w₂ ≡ (failed error', w₃)
      → result ≡ throw (if awaited then new_backend_error error' else error.message)
      → calls ≡ prepare ∷ sent ∷ cancel ∷ []
      → Compensated outside awaited checks prepare sent cancel w result calls

module _ {T W : Type 0} (outside : Outside T W) where
  pub call-cases :
      (o : Outcome × W)
      → ((w' : W) × (o ≡ (done, w'))) ⊎ ((error : CallError) × (w' : W) × (o ≡ (failed error, w')))
  call-cases (done, w') = inl (w', refl)
  call-cases (failed error, w') = inr (error, w', refl)

  abbrev pub checked :
      {F : Type 0} → (W → Result F) → (F → W → Result (Unit {0})) → W → Result (Unit {0})
  checked estimate ensure w = Common.◌>>=◌ (estimate w) (λ fees. ensure fees w)

  -- the sequence, after the estimation of the fees and the check that they can be paid
  abbrev pub submission :
      {F : Type 0}
      → (W → Result F)
      → (F → W → Result (Unit {0}))
      → Verb
      → List Piece
      → Body
      → String
      → T
      → Verb
      → List Piece
      → Body
      → Run T W (Unit {0})
  submission estimate ensure verb path body signer_id tx verb' path' body' =
      reading estimate >>= λ fees.
      reading (ensure fees)
      >> (backend outside verb path body
          >> try_catch (sign outside signer_id tx) (backend outside verb' path' body'))

  -- the same, with a transaction that is made where it is signed
  abbrev pub creation :
      {F : Type 0}
      → (W → Result F)
      → (F → W → Result (Unit {0}))
      → Verb
      → List Piece
      → Body
      → String
      → Result T
      → Verb
      → List Piece
      → Body
      → Run T W (Unit {0})
  creation estimate ensure verb path body signer_id tx verb' path' body' =
      reading estimate >>= λ fees.
      reading (ensure fees)
      >> (backend outside verb path body
          >> try_catch (reading (λ _. tx) >>= sign outside signer_id)
              (backend outside verb' path' body'))

  abbrev pub creation_unawaited :
      {F : Type 0}
      → (W → Result F)
      → (F → W → Result (Unit {0}))
      → Verb
      → List Piece
      → Body
      → String
      → Result T
      → Verb
      → List Piece
      → Body
      → Run T W (Unit {0})
  creation_unawaited estimate ensure verb path body signer_id tx verb' path' body' =
      reading estimate >>= λ fees.
      reading (ensure fees)
      >> (backend outside verb path body
          >> try_catch_unawaited (reading (λ _. tx) >>= sign outside signer_id)
              (backend outside verb' path' body'))

  module _ (verb verb' : Verb) (path path' : List Piece) (body body' : Body) (signer_id : String)
      (tx : T) (checks : Result (Unit {0})) (w : W) where
    abbrev sent : Call T
    sent = sign_and_send signer_id tx

    abbrev cancel : Call T
    cancel = request verb' path' body'

    -- how the sequence ends, when it ends as `attempt` after the preparation
    abbrev Ending : Bool → Result (Unit {0}) × List (Call T) × W → Type 0
    Ending awaited attempt =
        Compensated outside awaited checks (request verb path body) sent cancel w attempt.0
          (request verb path body ∷ attempt.1)

    try_catch-Compensated :
        (w₁ : W)
        → checks ≡ ok tt
        → outside (request verb path body) w ≡ (done, w₁)
        → Ending true (try_catch (sign outside signer_id tx) (backend outside verb' path' body') w₁)
    unfolding backend sign try_catch
    try_catch-Compensated w₁ c p = elim (call-cases (outside sent w₁)) [
      | inl (w₂, q) ↦ Compensated.submitted w₁ w₂ c p q (rw (q)) (rw (q))
      | inr (error, w₂, q) ↦ elim (call-cases (outside cancel w₂)) [
        | inl (w₃, r) ↦ Compensated.cancelled error w₁ w₂ w₃ c p q r (rw (q, r)) (rw (q, r))
        | inr (error', w₃, r) ↦
            Compensated.uncancelled error error' w₁ w₂ w₃ c p q r (rw (q, r)) (rw (q, r))
      ]
    ]

    try_catch_unawaited-Compensated :
        (w₁ : W)
        → checks ≡ ok tt
        → outside (request verb path body) w ≡ (done, w₁)
        → Ending false
            (try_catch_unawaited (sign outside signer_id tx) (backend outside verb' path' body') w₁)
    unfolding backend sign try_catch_unawaited
    try_catch_unawaited-Compensated w₁ c p = elim (call-cases (outside sent w₁)) [
      | inl (w₂, q) ↦ Compensated.submitted w₁ w₂ c p q (rw (q)) (rw (q))
      | inr (error, w₂, q) ↦ elim (call-cases (outside cancel w₂)) [
        | inl (w₃, r) ↦ Compensated.cancelled error w₁ w₂ w₃ c p q r (rw (q)) (rw (q, r))
        | inr (error', w₃, r) ↦
            Compensated.uncancelled error error' w₁ w₂ w₃ c p q r (rw (q)) (rw (q, r))
      ]
    ]

  module _ {F : Type 0} (estimate : W → Result F) (ensure : F → W → Result (Unit {0}))
      (verb verb' : Verb) (path path' : List Piece) (body body' : Body) (signer_id : String)
      (tx : T) (w : W) where
    -- the steps before the transaction, where they succeed
    prepared_run :
        (attempt : Run T W (Unit {0})) (fees : F) (w₁ : W)
        → estimate w ≡ ok fees
        → ensure fees w ≡ ok tt
        → outside (request verb path body) w ≡ (done, w₁)
        → (reading estimate >>= λ fees.
              reading (ensure fees) >> (backend outside verb path body >> attempt))
            w
          ≡ ((attempt w₁).0, request verb path body ∷ (attempt w₁).1, (attempt w₁).2)
    unfolding ◌>>=◌ ◌>>◌ backend
    prepared_run attempt fees w₁ e f p = rw (e, f, p)

    -- the steps before the transaction
    prepared-Compensated :
        (awaited : Bool) (attempt : Run T W (Unit {0}))
        → ((w₁ : W)
            → checked estimate ensure w ≡ ok tt
            → outside (request verb path body) w ≡ (done, w₁)
            → Ending verb verb' path path' body body' signer_id tx
                (checked estimate ensure w)
                w
                awaited
                (attempt w₁))
        → let run =
            (reading estimate >>= λ fees.
            reading (ensure fees) >> (backend outside verb path body >> attempt))
              w in
          Compensated outside awaited
            (checked estimate ensure w)
            (request verb path body)
            (sign_and_send signer_id tx)
            (request verb' path' body')
            w
            run.0
            run.1
    unfolding ◌>>=◌ ◌>>◌ backend
    prepared-Compensated awaited attempt k = elim (Result-cases (estimate w)) [
      | inr (message, e) ↦ Compensated.refused message (rw (e)) (rw (e)) (rw (e))
      | inl (fees, e) ↦ elim (Result-cases (ensure fees w)) [
        | inr (message, f) ↦ Compensated.refused message (rw (e, f)) (rw (e, f)) (rw (e, f))
        | inl (_, f) ↦ elim (call-cases (outside (request verb path body) w)) [
          | inr (error, w₁, p) ↦
              Compensated.unprepared error w₁ (rw (e, f)) p (rw (e, f, p)) (rw (e, f, p))
          | inl (w₁, p) ↦
              subst
                (λ (run : Result (Unit {0}) × List (Call T) × W).
                  Compensated outside awaited (checked estimate ensure w) (request verb path body)
                    (sign_and_send signer_id tx) (request verb' path' body') w run.0 run.1)
                (sym (prepared_run attempt fees w₁ e f p)) (k w₁ (rw (e, f)) p)
        ]
      ]
    ]

    pub submission-Compensated :
        let run = submission estimate ensure verb path body signer_id tx verb' path' body' w in
        Compensated outside true
          (checked estimate ensure w)
          (request verb path body)
          (sign_and_send signer_id tx)
          (request verb' path' body')
          w
          run.0
          run.1
    submission-Compensated =
        prepared-Compensated true
          (try_catch (sign outside signer_id tx) (backend outside verb' path' body'))
          (try_catch-Compensated verb verb' path path' body body' signer_id tx
            (checked estimate ensure w) w)

    pub creation-Compensated :
        let run = creation estimate ensure verb path body signer_id (ok tx) verb' path' body' w in
        Compensated outside true
          (checked estimate ensure w)
          (request verb path body)
          (sign_and_send signer_id tx)
          (request verb' path' body')
          w
          run.0
          run.1
    unfolding ◌>>=◌
    creation-Compensated = submission-Compensated

    pub creation_unawaited-Compensated :
        let run =
          creation_unawaited estimate ensure verb path body signer_id (ok tx) verb' path' body' w in
        Compensated outside false
          (checked estimate ensure w)
          (request verb path body)
          (sign_and_send signer_id tx)
          (request verb' path' body')
          w
          run.0
          run.1
    unfolding ◌>>=◌
    creation_unawaited-Compensated =
        prepared-Compensated false
          (try_catch_unawaited (sign outside signer_id tx) (backend outside verb' path' body'))
          (try_catch_unawaited-Compensated verb verb' path path' body body' signer_id tx
            (checked estimate ensure w) w)
