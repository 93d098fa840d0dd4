-- ===== src/Locs/Refreshing.antt =====
-- What `refreshWith` of packages/client/src/Loc.ts does.
use logion_api.Common.{
  ℕ, ◌<◌, ◌+◌, ◌≡◌, ◌∙◌, some, [], ◌∷◌, ◌++◌, String, length, get_elem?, set, arith, length-append,
}
use logion_api.Calls.{Uuid}
use logion_api.Locs.{
  LocRequestState, LocsState, of_loc, of_locs, Objects, Locs, refresh_states, placed,
}
use logion_api.Locs.Cells.{live, replaced_by, get_elem?-lt_length, get_elem?-append_old, rehomed}
use logion_api.Locs.Living.{Apart, Living, Kept, Living-kept, Separate-none, Separate-split}
use logion_api.Locs.Readiness.{Ready}
use logion_api.Locs.Rehoming.{Refreshed, refresh_states-Refreshed, rehomed-Kept}

module _ (uuid_text : String → Uuid) (s : Objects) (i : ℕ) (this : LocsState) (added : ℕ)
    (added_loc : LocRequestState) (ready : Ready s i this added added_loc) where
  -- the store with the new LocsState, still empty
  abbrev s₀ : Objects
  s₀ = s ++ live (of_locs (record { locs = []; verified_issuer_locs = [] })) ∷ []

  abbrev next : ℕ
  next = length s

  length-s₀ : length s₀ ≡ length s + 1
  length-s₀ = length-append s _

  started : Kept s s₀ []
  started = record {
    grown = omega (arith, length-s₀);
    same = λ j h a. get_elem?-append_old s _ j h;
  }

  living₀ : (entries : Locs) → Living s entries → Living s₀ entries
  living₀ entries l = Living-kept s s₀ [] entries started l (Separate-none entries)

  abbrev first : Refreshed next this.locs s₀ (refresh_states next this.locs s₀)
  first = refresh_states-Refreshed next this.locs s₀ (living₀ this.locs ready.living) ready.distinct

  living₁ : Living first.after this.verified_issuer_locs
  living₁ =
      Living-kept s₀ first.after this.locs this.verified_issuer_locs first.kept
        (living₀ this.verified_issuer_locs ready.living_issuers) ready.separate

  abbrev second :
      Refreshed next this.verified_issuer_locs first.after
        (refresh_states next this.verified_issuer_locs first.after)
  second =
      refresh_states-Refreshed next this.verified_issuer_locs first.after living₁
        ready.distinct_issuers

  -- an object that is none of the LOCs is not changed
  until_second :
      (j : ℕ)
      → j < length s₀
      → Apart j this.locs
      → Apart j this.verified_issuer_locs
      → get_elem? second.after j ≡ get_elem? s₀ j
  until_second j h a b =
      second.kept.same j (omega (arith, h, first.kept.grown)) b ∙ first.kept.same j h a

  added-lt : added < length s
  added-lt = get_elem?-lt_length s added _ ready.found_added

  found₂ : get_elem? second.after added ≡ some (live (of_loc added_loc))
  found₂ =
      until_second added (omega (arith, added-lt, length-s₀))
        (Separate-split "" added [] this.locs ready.new).0
        (Separate-split "" added [] this.verified_issuer_locs ready.new_issuer).0
      ∙ get_elem?-append_old s _ added added-lt
      ∙ ready.found_added

  abbrev s₃ : Objects
  s₃ = rehomed next added second.after added_loc found₂

  abbrev third : Kept second.after s₃ (("", added) ∷ [])
  third = rehomed-Kept next "" added second.after added_loc found₂

  abbrev final : LocsState
  final = placed uuid_text this added_loc (length second.after) first.refreshed second.refreshed

  abbrev s₄ : Objects
  s₄ = set s₃ next (live (of_locs final))

  abbrev s₅ : Objects
  s₅ = set s₄ i (replaced_by next (of_locs this))
