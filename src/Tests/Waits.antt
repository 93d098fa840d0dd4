-- ===== src/Tests/Waits.antt =====
-- Waiting for a value: packages/client/src/Polling.ts.
use logion_api.Common.{
  ℕ, suc, ◌+◌, ◌≡◌, refl, Bool, Option, none, some, Result, ok, throw, leb, if◌then◌else◌,
}
use logion_api.Polling.{no_more_retries, max_retries_of, tick, wait_for}

waits : Unit {0}
unfolding max_retries_of tick wait_for
waits = tt

-- The values 0, 1, 2 and so on; from 7 on the node is gone.
abbrev count : Option ℕ → Result ℕ
count none = ok 0
count (some n) = if leb 7 (suc n) then throw "ECONNREFUSED" else ok (n + 1)

abbrev at_least : ℕ → ℕ → Bool
at_least m n = leb m n

waited :
    (wait_for 21 none count (at_least 4) ≡ some (ok 4))
    × (wait_for 21 none count (at_least 9) ≡ some (throw "ECONNREFUSED"))
    × (wait_for 4 (some 3) count (at_least 4) ≡ some no_more_retries)
    × (wait_for 4 (some 0) count (at_least 0) ≡ some (ok 0))
unfolding waits
waited = (refl, refl, refl, refl)
