-- ===== src/Tests/OpenLocs.antt =====
-- The closing of an open LOC, and its items: packages/client/src/Loc.ts.
use logion_api.Common.{◌≡◌, ◌⊎◌, refl, true, false, some, none, [], ok, throw, ◌>>=◌}
use logion_api.LocClient.{polkadot}
use logion_api.LocClient.Lifecycle.{close_loc}
use logion_api.LocClient.Items.{
  publish_file, publish_metadata, publish_link, acknowledge_published_file,
  acknowledge_published_metadata, acknowledge_published_link,
}
use logion_api.Loc.{ItemStatus}
use logion_api.Loc.Merging.{find}
use logion_api.Loc.Closing.{
  status_index, same_status, is_polkadot, is_set, is_verified_issuer, is_acknowledged_on_chain,
  is_published_on_chain, is_ready_for_auto_ack, is_no_item, can_auto_ack, is_all_items_acknowledged,
  can_close, cannot_close, close_open_loc,
}
use logion_api.Loc.Closing.Conditions.{HasAll, Closable, close_open_loc-Closable}
use logion_api.Loc.OpenLoc.{
  same_type, equals, OpenLoc, is_requester, is_owner, is_issuer, ensure_can_publish,
  ensure_can_acknowledge, find_file, find_metadata, find_link, to_publish, publish_loc_file,
  publish_loc_metadata, publish_loc_link, acknowledge_loc_file, acknowledge_loc_metadata,
  acknowledge_loc_link,
}
use logion_api.Loc.OpenLoc.Callers.{Publisher, Acknowledger}
use logion_api.Loc.OpenLoc.Permissions.{
  FileWith, MetadataWith, LinkWith, Guarded, publications-Guarded, acknowledgements-Guarded,
}
use logion_api.Tests.LocData.{request, no_issuers, readers, shown, hash_of_ones, bob_id}
use logion_api.Tests.LocItems.{client}

-- Bob has requested the LOC.
abbrev bobs : OpenLoc
bobs = record {
  request = request;
  loc_id = "a-loc";
  loc_issuers = no_issuers;
  current_address = some bob_id;
}

abbrev owners : OpenLoc
owners = record bobs { current_address = some (record { address = "5Owner"; type = polkadot }) }

open_locs : Unit {0}
unfolding status_index same_status is_polkadot is_set is_verified_issuer is_acknowledged_on_chain
    is_published_on_chain is_ready_for_auto_ack is_no_item can_auto_ack is_all_items_acknowledged
    can_close find same_type equals is_requester is_owner is_issuer ensure_can_publish
    ensure_can_acknowledge
open_locs = tt

requester_publishes : ensure_can_publish bobs ≡ ok tt
unfolding open_locs
requester_publishes = refl

owner_publishes : ensure_can_publish owners ≡ throw "Only requester can publish"
unfolding open_locs
owner_publishes = refl

owner_acknowledges : ensure_can_acknowledge owners ≡ ok tt
unfolding open_locs
owner_acknowledges = refl

requester_acknowledges :
    ensure_can_acknowledge bobs ≡ throw "Only owner or a verified issuer can acknowledge"
unfolding open_locs
requester_acknowledges = refl

-- All items are published, so they can be acknowledged by closing, and not be left so.
close_published : can_close no_issuers shown true ≡ true
unfolding open_locs
close_published = refl

close_unacknowledged : can_close no_issuers shown false ≡ false
unfolding open_locs
close_unacknowledged = refl

close_open_loc-Closable_example :
    (HasAll (Closable no_issuers true) shown
      × (close_open_loc client no_issuers shown true 0 ≡ close_loc client "a-loc" none true 0))
    ⊎ (¬ HasAll (Closable no_issuers true) shown
        × (close_open_loc client no_issuers shown true 0 ≡ (throw (cannot_close true), [], 0)))
close_open_loc-Closable_example = close_open_loc-Closable client no_issuers shown true 0

publications-Guarded_example :
    Guarded
      (ensure_can_publish bobs)
      (find_file readers bobs hash_of_ones ItemStatus.review_accepted >>= to_publish)
      (Publisher bobs × FileWith bobs hash_of_ones ItemStatus.review_accepted)
      (publish_file client "a-loc")
      (publish_loc_file readers client bobs hash_of_ones)
      0
    × Guarded
        (ensure_can_publish bobs)
        (find_metadata readers bobs hash_of_ones ItemStatus.review_accepted)
        (Publisher bobs × MetadataWith bobs hash_of_ones ItemStatus.review_accepted)
        (publish_metadata client "a-loc")
        (publish_loc_metadata readers client bobs hash_of_ones)
        0
    × Guarded
        (ensure_can_publish bobs)
        (find_link readers bobs "other" ItemStatus.review_accepted)
        (Publisher bobs × LinkWith bobs "other" ItemStatus.review_accepted)
        (publish_link client "a-loc")
        (publish_loc_link readers client bobs "other")
        0
publications-Guarded_example =
    publications-Guarded readers client bobs hash_of_ones hash_of_ones "other" 0

acknowledgements-Guarded_example :
    Guarded
      (ensure_can_acknowledge owners)
      (find_file readers owners hash_of_ones ItemStatus.published)
      (Acknowledger owners × FileWith owners hash_of_ones ItemStatus.published)
      (λ file. acknowledge_published_file client "a-loc" hash_of_ones)
      (acknowledge_loc_file readers client owners hash_of_ones)
      0
    × Guarded
        (ensure_can_acknowledge owners)
        (find_metadata readers owners hash_of_ones ItemStatus.published)
        (Acknowledger owners × MetadataWith owners hash_of_ones ItemStatus.published)
        (λ item. acknowledge_published_metadata client "a-loc" hash_of_ones)
        (acknowledge_loc_metadata readers client owners hash_of_ones)
        0
    × Guarded
        (ensure_can_acknowledge owners)
        (find_link readers owners "other" ItemStatus.published)
        (Acknowledger owners × LinkWith owners "other" ItemStatus.published)
        (λ link. acknowledge_published_link client "a-loc" "other")
        (acknowledge_loc_link readers client owners "other")
        0
acknowledgements-Guarded_example =
    acknowledgements-Guarded readers client owners hash_of_ones hash_of_ones "other" 0
