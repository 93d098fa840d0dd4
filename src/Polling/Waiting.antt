-- ===== src/Polling/Waiting.antt =====
-- What waiting ends with, packages/client/src/Polling.ts.
use logion_api.Common.{
  ℕ, zero, suc, ◌<◌, ◌≡◌, ◌⊎◌, String, Bool, true, false, Option, none, some, Result, ok, throw,
  ◌>>=◌,
}
use logion_api.Polling.{no_more_retries}

-- How many ticks the retries make: the first one comes whatever their number.
pub ticks : ℕ → ℕ
ticks zero = 1
ticks (suc n) = suc n

module _ {T : Type 0} (producer : Option T → Result T) (predicate : T → Bool) where
  -- the value of a tick, when no predicate stops the ticks
  pub produced : ℕ → Result T
  produced zero = producer none
  produced (suc n) = do v ← produced n; producer (some v)

  -- no value before the tick n meets the predicate
  abbrev pub NoneBefore : ℕ → Type 0
  NoneBefore n = (m : ℕ) (v : T) → m < n → produced m ≡ ok v → predicate v ≡ false

  -- how the ticks end: with the first value that meets the predicate, with the error of the
  -- producer, or after the last retry
  pub Ending : ℕ → Result T → Type 0
  Ending max result =
      (n : ℕ) × NoneBefore n
      × ((n < ticks max × ((v : T) × (result ≡ ok v) × (produced n ≡ ok v) × (predicate v ≡ true)))
          ⊎ (n < ticks max
              × ((message : String) × (result ≡ throw message) × (produced n ≡ throw message)))
          ⊎ (n ≡ ticks max
              × ((m : ℕ) × (v : T) × (n ≡ suc m) × (produced m ≡ ok v))
              × (result ≡ no_more_retries)))
