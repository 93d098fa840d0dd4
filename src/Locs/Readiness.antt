-- ===== src/Locs/Readiness.antt =====
-- What `refreshWith` of packages/client/src/Loc.ts needs of the store and what it makes of it, and
-- its reads and writes of a live state.
use logion_api.Common.{
  ℕ, ◌≡◌, refl, some, none, List, [], ◌∷◌, String, length, get_elem?, set, Result, ok,
}
use logion_api.Calls.{Uuid}
use logion_api.Locs.{
  LocRequestState, LocsState, of_loc, of_locs, Objects, Locs, set_locs, locs_at, loc_at,
  content_loc, content_locs, read_locs, read_loc, placed,
}
use logion_api.Locs.Cells.{live, replaced_by}
use logion_api.Locs.Living.{Distinct, Separate, Living}
use logion_api.Locs.Rehoming.{Rehomed, AllRehomed}

-- A LocsState that holds live LOCs, all different, and a live LOC that it does not hold.
pub record Ready (s : Objects) (i : ℕ) (this : LocsState) (added : ℕ) (added_loc : LocRequestState)
    : Type 0 where
  pub found : get_elem? s i ≡ some (live (of_locs this))
  pub found_added : get_elem? s added ≡ some (live (of_loc added_loc))
  pub living : Living s this.locs
  pub living_issuers : Living s this.verified_issuer_locs
  pub distinct : Distinct this.locs
  pub distinct_issuers : Distinct this.verified_issuer_locs
  pub separate : Separate this.locs this.verified_issuer_locs
  pub new : Separate (("", added) ∷ []) this.locs
  pub new_issuer : Separate (("", added) ∷ []) this.verified_issuer_locs

-- The LocsState is replaced by a new one, `next`, that holds a live copy of each LOC under its key,
-- and of the LOC that was added; each LOC is replaced by its copy.
pub record RefreshedWith (uuid_text : String → Uuid) (s : Objects) (i : ℕ) (this : LocsState)
    (added : ℕ) (added_loc : LocRequestState) (run : Result ℕ × Objects) : Type 0 where
  pub next : ℕ
  pub after : Objects
  pub locs : Locs
  pub issuers : Locs
  pub copy : ℕ
  pub returns : run ≡ (ok next, after)
  pub is_new : get_elem? s next ≡ none
  pub replaced : get_elem? after i ≡ some (replaced_by next (of_locs this))
  pub made :
      get_elem? after next
      ≡ some (live (of_locs (placed uuid_text this added_loc copy locs issuers)))
  pub rehomed_locs : AllRehomed next s after this.locs locs
  pub rehomed_issuers : AllRehomed next s after this.verified_issuer_locs issuers
  pub rehomed_added : Rehomed next s after ("", added) ("", copy)

pub get_elem?-length : {A : Type 0} (xs : List A) → get_elem? xs (length xs) ≡ none
get_elem?-length [] = refl
get_elem?-length (x ∷ xs) = get_elem?-length xs

pub set_locs_live :
    (i : ℕ) (state old : LocsState) (s : Objects)
    → get_elem? s i ≡ some (live (of_locs old))
    → set_locs i state s ≡ (ok i, set s i (live (of_locs state)))
unfolding set_locs
set_locs_live i state old s found = rw (found, set_locs)

pub read_locs_live :
    (i : ℕ) (state : LocsState) (s : Objects)
    → get_elem? s i ≡ some (live (of_locs state))
    → read_locs i s ≡ (ok state, s)
unfolding read_locs locs_at content_locs
read_locs_live i state s found =
    let e : locs_at s i ≡ some state = rw (found, locs_at) in rw (e, read_locs)

pub read_loc_live :
    (i : ℕ) (state : LocRequestState) (s : Objects)
    → get_elem? s i ≡ some (live (of_loc state))
    → read_loc i s ≡ (ok state, s)
unfolding read_loc loc_at content_loc
read_loc_live i state s found =
    let e : loc_at s i ≡ some state = rw (found, loc_at) in rw (e, read_loc)
