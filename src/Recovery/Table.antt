-- ===== src/Recovery/Table.antt =====
-- The class of the state that `getInitialState` makes, packages/client/src/Recovery.ts, as a table.
use logion_api.Common.{
  ℕ, ◌+◌, ◌<◌, ◌≡◌, ◌≢◌, ◌↔◌, ◌⊎◌, sym, subst, Bool, true, false, length, ok, arith,
}
use logion_api.Recovery.Requests.{SharedState}
use logion_api.Recovery.{
  FetchAllResult, ProtectionState, StateName, no_protection, pending_protection,
  accepted_protection, active_protection, pending_recovery, claimed_recovery,
  unavailable_protection, rejected_recovery, is_defined, first_match, get_initial_state,
  first_is_recovery,
}
use logion_api.Recovery.Choice.{initial_state_chosen}
use logion_api.Recovery.Names.{names, names_of, choose_state-Named}

-- What decides the class.
pub record Facts : Type 0 where
  pub configured : Bool
  pub recovered : Bool
  pub pendings : ℕ
  pub accepteds : ℕ
  pub rejecteds : ℕ

abbrev pub facts_of : FetchAllResult → Facts
facts_of fetched = record {
  configured = is_defined fetched.recovery_config;
  recovered = is_defined fetched.recovered_address;
  pendings = length fetched.pending;
  accepteds = length fetched.accepted;
  rejecteds = length fetched.rejected;
}

-- when the account is in a state, by its class
unfoldable pub Rules : Facts → StateName → Type 0
Rules k no_protection =
    (k.configured ≡ false) × (k.recovered ≡ false) × (k.pendings + k.accepteds + k.rejecteds ≡ 0)
Rules k active_protection =
    (k.configured ≡ true) × (k.recovered ≡ false) × (k.pendings + k.accepteds + k.rejecteds ≡ 0)
Rules k claimed_recovery = (k.configured ≡ true) × (k.recovered ≡ true)
Rules k accepted_protection = (k.configured ≡ false) × (k.recovered ≡ false) × (k.accepteds ≡ 2)
Rules k pending_protection =
    (k.configured ≡ false)
    × (k.recovered ≡ false)
    × (k.accepteds ≢ 2)
    × ((k.pendings ≡ 2) ⊎ ((k.pendings ≡ 1) × (k.accepteds ≡ 1)))
Rules k rejected_recovery =
    (k.configured ≡ false)
    × (k.recovered ≡ false)
    × (k.accepteds ≢ 2)
    × (k.pendings ≢ 2)
    × (¬ ((k.pendings ≡ 1) × (k.accepteds ≡ 1)))
    × (0 < k.rejecteds)
Rules k pending_recovery = Unit
Rules k unavailable_protection = Unit

table_set_up :
    (c r f : Bool) (p a j : ℕ)
    → ((first_match (names c r f p a j) unavailable_protection ≡ no_protection)
        ↔ ((c ≡ false) × (r ≡ false) × (p + a + j ≡ 0)))
      × ((first_match (names c r f p a j) unavailable_protection ≡ active_protection)
          ↔ ((c ≡ true) × (r ≡ false) × (p + a + j ≡ 0)))
      × ((first_match (names c r f p a j) unavailable_protection ≡ claimed_recovery)
          ↔ ((c ≡ true) × (r ≡ true)))
unfolding first_match
table_set_up c r f p a j = ground arith

table_requests :
    (c r f : Bool) (p a j : ℕ)
    → ((first_match (names c r f p a j) unavailable_protection ≡ accepted_protection)
        ↔ ((c ≡ false) × (r ≡ false) × (a ≡ 2)))
      × ((first_match (names c r f p a j) unavailable_protection ≡ pending_protection)
          ↔ ((c ≡ false) × (r ≡ false) × (a ≢ 2) × ((p ≡ 2) ⊎ ((p ≡ 1) × (a ≡ 1)))))
      × ((first_match (names c r f p a j) unavailable_protection ≡ rejected_recovery)
          ↔ ((c ≡ false) × (r ≡ false) × (a ≢ 2) × (p ≢ 2) × (¬ ((p ≡ 1) × (a ≡ 1))) × (0 < j)))
unfolding first_match
table_requests c r f p a j = ground arith

-- the classes that the rules decide
unfoldable pub Decided : StateName → Type 0
Decided no_protection = Unit
Decided active_protection = Unit
Decided claimed_recovery = Unit
Decided accepted_protection = Unit
Decided pending_protection = Unit
Decided rejected_recovery = Unit
Decided pending_recovery = ⊥
Decided unavailable_protection = ⊥

table :
    (c r f : Bool) (p a j : ℕ) (name : StateName)
    → Decided name
    → (first_match (names c r f p a j) unavailable_protection ≡ name)
      ↔ Rules
          (record { configured = c; recovered = r; pendings = p; accepteds = a; rejecteds = j })
          name
unfolding Decided Rules
table c r f p a j no_protection d = (table_set_up c r f p a j).0
table c r f p a j active_protection d = (table_set_up c r f p a j).1
table c r f p a j claimed_recovery d = (table_set_up c r f p a j).2
table c r f p a j accepted_protection d = (table_requests c r f p a j).0
table c r f p a j pending_protection d = (table_requests c r f p a j).1
table c r f p a j rejected_recovery d = (table_requests c r f p a j).2
table c r f p a j pending_recovery d = absurd d
table c r f p a j unavailable_protection d = absurd d

-- The class of an initial state: without configuration and recovered address it is NoProtection if
-- there is no request, AcceptedProtection with two accepted ones, else PendingProtection with two
-- pending ones or one of each, else RejectedRecovery with a rejected one; with a configuration it is
-- ActiveProtection if there is no request and no recovered address, and ClaimedRecovery with a
-- recovered address.
pub get_initial_state-name :
    (fetched : FetchAllResult) (shared : SharedState) (s : ProtectionState) (name : StateName)
    → get_initial_state fetched shared ≡ ok s
    → Decided name
    → (s.name ≡ name) ↔ Rules (facts_of fetched) name
unfolding names_of
get_initial_state-name fetched shared s name h decided =
    let (state, chosen) = initial_state_chosen fetched shared s h in
    let same = (choose_state-Named fetched state).same_name s chosen in
    subst (λ (n : StateName). (n ≡ name) ↔ Rules (facts_of fetched) name) (sym same)
      (table (is_defined fetched.recovery_config) (is_defined fetched.recovered_address)
        (first_is_recovery fetched.accepted) (length fetched.pending) (length fetched.accepted)
        (length fetched.rejected) name decided)
