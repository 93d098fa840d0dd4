-- ===== src/Locs/Rehoming.antt =====
-- What `refreshStates` of packages/client/src/Loc.ts does to the LOCs of a LocsState.
use logion_api.Common.{
  ℕ, ◌≤◌, ◌<◌, ◌+◌, ◌≡◌, refl, sym, ◌∙◌, some, [], ◌∷◌, ◌++◌, String, length, get_elem?, Result, ok,
  arith, length-set, get_elem?-set_self, get_elem?-set_ne, length-append, All2,
}
use logion_api.Locs.{LocRequestState, of_loc, Objects, Locs, with_locs, refresh_states}
use logion_api.Locs.Living.{
  Apart, Distinct, Separate, Living, Kept, Living-Apart, Living-kept, Apart-Separate,
}
use logion_api.Locs.Cells.{
  live, replaced_by, get_elem?-lt_length, get_elem?-append_old, get_elem?-append_new, rehomed,
  with_locs_live, then_ok,
}

-- `new` is a live copy of the LOC `old`, in the LocsState `target`, and `old` is replaced by it
pub record Rehomed (target : ℕ) (s s' : Objects) (old new : String × ℕ) : Type 0 where
  pub same_key : new.0 ≡ old.0
  pub state : LocRequestState
  pub before : get_elem? s old.1 ≡ some (live (of_loc state))
  pub after : get_elem? s' new.1 ≡ some (live (of_loc (record state { locs_state = target })))
  pub replaced : get_elem? s' old.1 ≡ some (replaced_by new.1 (of_loc state))
  pub created : length s ≤ new.1

-- LOCs that have been refreshed stay so while others are
pub Rehomed-kept :
    (target : ℕ) (s s' s'' : Objects) (changed : Locs) (old new : String × ℕ)
    → Kept s' s'' changed
    → ((j : ℕ) → length s ≤ j → Apart j changed)
    → Apart old.1 changed
    → Rehomed target s s' old new
    → Rehomed target s s'' old new
Rehomed-kept target s s' s'' changed old new kept above apart h = record {
  same_key = h.same_key;
  state = h.state;
  before = h.before;
  after =
      kept.same new.1 (get_elem?-lt_length s' new.1 _ h.after) (above new.1 h.created) ∙ h.after;
  replaced = kept.same old.1 (get_elem?-lt_length s' old.1 _ h.replaced) apart ∙ h.replaced;
  created = h.created;
}

-- one LOC
module _ (target : ℕ) (k : String) (r : ℕ) (s : Objects) (state : LocRequestState)
    (found : get_elem? s r ≡ some (live (of_loc state))) where
  pub length-rehomed : length (rehomed target r s state found) ≡ length s + 1
  length-rehomed =
      length-set (s ++ live (of_loc (record state { locs_state = target })) ∷ []) r _
      ∙ length-append s (live (of_loc (record state { locs_state = target })) ∷ [])

  pub rehomed-Kept : Kept s (rehomed target r s state found) ((k, r) ∷ [])
  unfolding Apart
  rehomed-Kept = record {
    grown = omega (arith, length-rehomed);
    same = λ j h (other, _).
        get_elem?-set_ne (s ++ live (of_loc (record state { locs_state = target })) ∷ []) _
          (λ e. other (sym e))
        ∙ get_elem?-append_old s _ j h;
  }

  pub rehomed-Rehomed : Rehomed target s (rehomed target r s state found) (k, r) (k, length s)
  rehomed-Rehomed =
      let h : r < length s = get_elem?-lt_length s r _ found in
      let grown = s ++ live (of_loc (record state { locs_state = target })) ∷ [] in
      let longer : length grown ≡ length s + 1 = length-append s _ in
      record {
        same_key = refl;
        state = state;
        before = found;
        after =
            get_elem?-set_ne grown _ (λ e. absurd (omega (arith, e))) ∙ get_elem?-append_new s _;
        replaced = get_elem?-set_self grown r _ (omega (arith, longer));
        created = omega arith;
      }

pub AllRehomed : ℕ → Objects → Objects → Locs → Locs → Type 0
AllRehomed target s s' olds news = All2 (Rehomed target s s') olds news

-- what refreshing the LOCs of a map has done
pub record Refreshed (target : ℕ) (entries : Locs) (s : Objects) (run : Result Locs × Objects)
    : Type 0 where
  pub refreshed : Locs
  pub after : Objects
  pub returns : run ≡ (ok refreshed, after)
  pub kept : Kept s after entries
  pub rehomed : AllRehomed target s after entries refreshed

pub AllRehomed-kept :
    (target : ℕ) (s s' s'' : Objects) (changed olds news : Locs)
    → Kept s' s'' changed
    → ((j : ℕ) → length s ≤ j → Apart j changed)
    → Separate changed olds
    → AllRehomed target s s' olds news
    → AllRehomed target s s'' olds news
unfolding AllRehomed Separate
AllRehomed-kept target s s' s'' changed [] [] kept above apart h = tt
AllRehomed-kept target s s' s'' changed [] (new ∷ news) kept above apart h = absurd h
AllRehomed-kept target s s' s'' changed (old ∷ olds) [] kept above apart h = absurd h
AllRehomed-kept target s s' s'' changed ((k, r) ∷ olds) (new ∷ news) kept above (apart, later)
      (h, hs) =
    (
      Rehomed-kept target s s' s'' changed (k, r) new kept above apart h,
      AllRehomed-kept target s s' s'' changed olds news kept above later hs,
    )

-- the LOCs were not changed by what came before
pub Rehomed-before :
    (target : ℕ) (s s₁ s' : Objects) (changed olds news : Locs)
    → Kept s s₁ changed
    → Living s olds
    → Separate changed olds
    → AllRehomed target s₁ s' olds news
    → AllRehomed target s s' olds news
unfolding AllRehomed Separate Living
Rehomed-before target s s₁ s' changed [] [] kept l apart h = tt
Rehomed-before target s s₁ s' changed [] (new ∷ news) kept l apart h = absurd h
Rehomed-before target s s₁ s' changed (old ∷ olds) [] kept l apart h = absurd h
Rehomed-before target s s₁ s' changed ((k, r) ∷ olds) (new ∷ news) kept ((state, found), l)
      (apart, later) (h, hs) =
    let same = kept.same r (get_elem?-lt_length s r _ found) apart in
    (
      record {
        same_key = h.same_key;
        state = h.state;
        before = sym same ∙ h.before;
        after = h.after;
        replaced = h.replaced;
        created = omega (arith, h.created, kept.grown);
      },
      Rehomed-before target s s₁ s' changed olds news kept l later hs,
    )

Kept-then :
    (s s' s'' : Objects) (k : String) (r : ℕ) (entries : Locs)
    → Kept s s' ((k, r) ∷ [])
    → Kept s' s'' entries
    → Kept s s'' ((k, r) ∷ entries)
unfolding Apart
Kept-then s s' s'' k r entries first later = record {
  grown = omega (arith, first.grown, later.grown);
  same = λ j h (other, apart).
      later.same j (omega (arith, h, first.grown)) apart ∙ first.same j h (other, tt);
}

pub refresh_states-Refreshed :
    (target : ℕ) (entries : Locs) (s : Objects)
    → Living s entries
    → Distinct entries
    → Refreshed target entries s (refresh_states target entries s)
unfolding refresh_states Living Distinct AllRehomed
refresh_states-Refreshed target [] s l d = record {
  refreshed = [];
  after = s;
  returns = refl;
  kept = record { grown = omega arith; same = λ j h a. refl };
  rehomed = tt;
}
refresh_states-Refreshed target ((k, r) ∷ entries) s ((state, found), l) (apart, d) =
    let s₁ = rehomed target r s state found in
    let first = rehomed-Kept target k r s state found in
    let separate = Apart-Separate k r entries apart in
    let rest =
      refresh_states-Refreshed target entries s₁
        (Living-kept s s₁ ((k, r) ∷ []) entries first l separate) d in
    record {
      refreshed = (k, length s) ∷ rest.refreshed;
      after = rest.after;
      returns =
          then_ok (with_locs target r s) _ (length s) s₁ (with_locs_live target r s state found)
          ∙ then_ok (refresh_states target entries s₁) _ rest.refreshed rest.after rest.returns;
      kept = Kept-then s s₁ rest.after k r entries first rest.kept;
      rehomed = (
        Rehomed-kept target s s₁ rest.after entries (k, r) (k, length s) rest.kept
            (λ j h. Living-Apart s entries j l h) apart (rehomed-Rehomed target k r s state found),
        Rehomed-before target s s₁ rest.after ((k, r) ∷ []) entries rest.refreshed first l separate
            rest.rehomed,
      );
    }
