-- ===== src/Tests/LocsStates.antt =====
-- LocsState and the LOCs in it: packages/client/src/Loc.ts.
use logion_api.Common.{◌≡◌, refl, String, some, none, [], ◌∷◌}
use logion_api.State.{
  is_discarded, ensure_current, mark_discarded, discard, follow, get_current_state,
  get_current_state_or_throw, replace_on_success, discard_on_success, new_state, next_of,
}
use logion_api.Http.{put}
use logion_api.Loc.{open_status, review_pending}
use logion_api.Loc.Closing.{is_set}
use logion_api.Locs.{
  LocRequestState, LocsState, pending_request, open_loc, of_loc, of_locs, Objects, and_then, loc_at,
  locs_at, content_loc, content_locs, replace_current, copy_with, with_locs, refresh_states,
  set_locs, read_locs, read_loc, key_of, is_verified_issuer_loc, placed, refresh_current_with,
  refresh_with, remove, refresh_current_without, refresh_without, find_by_id,
  find_by_id_or_undefined,
}
use logion_api.Locs.Cells.{live}
use logion_api.Locs.Living.{Apart, Distinct, Separate, Living}
use logion_api.Tests.LocData.{request, no_issuers}

abbrev state_of : String → LocRequestState
state_of id = record {
  loc_class = pending_request;
  locs_state = 0;
  request = record request { id = id; status = review_pending };
  legal_officer_case = none;
  loc_issuers = no_issuers;
  invited_contributors = [];
}

-- the LOC after it was opened
abbrev opened : LocRequestState
opened = record (state_of "a") {
  loc_class = open_loc;
  request = record request { id = "a"; status = open_status };
}

abbrev held : LocsState
held = record { locs = ("a", 1) ∷ ("b", 2) ∷ []; verified_issuer_locs = ("v", 3) ∷ [] }

abbrev objects : Objects
objects =
    live (of_locs held)
    ∷ live (of_loc (state_of "a"))
    ∷ live (of_loc (state_of "b"))
    ∷ live (of_loc (state_of "v"))
    ∷ live (of_loc opened)
    ∷ []

abbrev uuid_text : String → String
uuid_text id = id

locs_states : Unit {0}
unfolding Apart Distinct Separate Living is_discarded ensure_current mark_discarded discard follow
    get_current_state get_current_state_or_throw replace_on_success discard_on_success new_state
    next_of and_then loc_at locs_at content_loc content_locs replace_current copy_with with_locs
    refresh_states set_locs read_locs read_loc is_set key_of is_verified_issuer_loc placed
    refresh_current_with refresh_with remove refresh_current_without refresh_without find_by_id
    find_by_id_or_undefined put
locs_states = tt

abbrev after : Objects
after = (refresh_with uuid_text 4 0 objects).1

-- The new LocsState has the new LOC under its key, ...
held_next :
    locs_at after 5
    ≡ some (record { locs = ("a", 9) ∷ ("b", 7) ∷ []; verified_issuer_locs = ("v", 8) ∷ [] })
unfolding locs_states
held_next = refl

opened_next : loc_at after 9 ≡ some (record opened { locs_state = 5 })
unfolding locs_states
opened_next = refl

-- ... but the current state of the LOC that it held under that key is another one, that still has
-- the old request and that no LocsState holds.
current_old : get_current_state 10 1 after ≡ some (some 6)
unfolding locs_states
current_old = refl

stale : loc_at after 6 ≡ some (record (state_of "a") { locs_state = 5 })
unfolding locs_states
stale = refl

-- Without a LOC, the LocsState has the same objects for the others.
held_without :
    locs_at (refresh_without "a" 0 objects).1 5
    ≡ some (record { locs = ("b", 2) ∷ []; verified_issuer_locs = ("v", 3) ∷ [] })
unfolding locs_states
held_without = refl
