-- ===== src/Polling.antt =====
-- `waitFor` of packages/client/src/Polling.ts: values are produced, one at each tick, until one
-- meets the predicate or the retries are used up. A tick starts when the producer of the one before
-- has answered.
pub mod Waiting
use logion_api.Common.{
  ℕ, zero, suc, Bool, Option, none, some, Result, ok, throw, if◌then◌else◌, leb,
}

abbrev pub no_more_retries : {T : Type 0} → Result T
no_more_retries = throw "Maximum number of retries reached"

-- `DEFAULT_POLLING_PARAMETERS.maxRetries`
abbrev pub default_max_retries : ℕ
default_max_retries = 20

unfoldable pub max_retries_of : Option ℕ → ℕ
max_retries_of none = default_max_retries
max_retries_of (some max_retries) = max_retries

module _ {T : Type 0} where
  -- the ticks, on fuel; `none` says that it ran out
  unfoldable pub tick :
      ℕ → (Option T → Result T) → (T → Bool) → ℕ → ℕ → Option T → Option (Result T)
  tick zero producer predicate max_retries retries previous_value = none
  tick (suc fuel) producer predicate max_retries retries previous_value =
      elim (producer previous_value) [
        | throw message ↦ some (throw message)
        | ok new_state ↦
            let next = tick fuel producer predicate max_retries (suc retries) (some new_state) in
            if predicate new_state
            then some (ok new_state)
            else if leb max_retries (suc retries)
            then some no_more_retries
            else next
      ]

  unfoldable pub wait_for : ℕ → Option ℕ → (Option T → Result T) → (T → Bool) → Option (Result T)
  wait_for fuel max_retries producer predicate =
      tick fuel producer predicate (max_retries_of max_retries) 0 none
