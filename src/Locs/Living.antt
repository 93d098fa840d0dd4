-- ===== src/Locs/Living.antt =====
-- LOCs of packages/client/src/Loc.ts that are live and different from one another.
use logion_api.Common.{
  ℕ, ◌≤◌, ◌<◌, ◌≡◌, ◌≢◌, sym, ap, ◌∙◌, some, [], ◌∷◌, String, length, get_elem?, arith,
}
use logion_api.Locs.{LocRequestState, LocsState, of_loc, of_locs, Objects, Locs}
use logion_api.Locs.Cells.{live, get_elem?-lt_length}

-- the object behind `i` is none of the LOCs
unfoldable pub Apart : ℕ → Locs → Type 0
Apart i [] = Unit
Apart i ((k, r) ∷ entries) = (i ≢ r) × Apart i entries

-- the LOCs are different objects
unfoldable pub Distinct : Locs → Type 0
Distinct [] = Unit
Distinct ((k, r) ∷ entries) = Apart r entries × Distinct entries

-- none of the first is one of the others
unfoldable pub Separate : Locs → Locs → Type 0
Separate changed [] = Unit
Separate changed ((k, r) ∷ entries) = Apart r changed × Separate changed entries

-- none of them was discarded
unfoldable pub Living : Objects → Locs → Type 0
Living s [] = Unit
Living s ((k, r) ∷ entries) =
    ((state : LocRequestState) × (get_elem? s r ≡ some (live (of_loc state)))) × Living s entries

-- objects are only added, and only the LOCs change
pub record Kept (s s' : Objects) (entries : Locs) : Type 0 where
  pub grown : length s ≤ length s'
  pub same : (j : ℕ) → j < length s → Apart j entries → get_elem? s' j ≡ get_elem? s j

pub Living-Apart :
    (s : Objects) (entries : Locs) (j : ℕ) → Living s entries → length s ≤ j → Apart j entries
unfolding Living Apart
Living-Apart s [] j l h = tt
Living-Apart s ((k, r) ∷ entries) j ((state, found), l) h =
    (λ e. absurd (omega (arith, get_elem?-lt_length s r _ found, e)), Living-Apart s entries j l h)

pub Living-kept :
    (s s' : Objects) (changed entries : Locs)
    → Kept s s' changed
    → Living s entries
    → Separate changed entries
    → Living s' entries
unfolding Living Separate
Living-kept s s' changed [] kept l apart = tt
Living-kept s s' changed ((k, r) ∷ entries) kept ((state, found), l) (apart, later) = (
  (state, kept.same r (get_elem?-lt_length s r _ found) apart ∙ found),
  Living-kept s s' changed entries kept l later,
)

pub Apart-Separate :
    (k : String) (r : ℕ) (entries : Locs) → Apart r entries → Separate ((k, r) ∷ []) entries
unfolding Apart Separate
Apart-Separate k r [] a = tt
Apart-Separate k r ((k', r') ∷ entries) (a, as_) =
    ((λ e. a (sym e), tt), Apart-Separate k r entries as_)

pub Separate-none : (entries : Locs) → Separate [] entries
unfolding Separate Apart
Separate-none [] = tt
Separate-none ((k, r) ∷ entries) = (tt, Separate-none entries)

-- a LocsState is no LOC
pub Apart-locs :
    (s : Objects) (i : ℕ) (this : LocsState) (entries : Locs)
    → get_elem? s i ≡ some (live (of_locs this))
    → Living s entries
    → Apart i entries
unfolding Apart Living
Apart-locs s i this [] found l = tt
Apart-locs s i this ((k, r) ∷ entries) found ((state, here), l) = (
  λ e.
      let same : some (live (of_loc state)) ≡ some (live (of_locs this)) =
        sym here ∙ ap (get_elem? s) (sym e) ∙ found in
      cc,
  Apart-locs s i this entries found l,
)

pub Separate-split :
    (k : String) (r : ℕ) (changed entries : Locs)
    → Separate ((k, r) ∷ changed) entries
    → Apart r entries × Separate changed entries
unfolding Apart Separate
Separate-split k r changed [] h = (tt, tt)
Separate-split k r changed ((k', r') ∷ entries) ((a, b), later) =
    let (as_, bs) = Separate-split k r changed entries later in (((λ e. a (sym e)), as_), (b, bs))

pub Separate-sym : (changed entries : Locs) → Separate changed entries → Separate entries changed
unfolding Separate
Separate-sym [] entries h = tt
Separate-sym ((k, r) ∷ changed) entries h =
    let (a, later) = Separate-split k r changed entries h in (a, Separate-sym changed entries later)

pub Separate-ends :
    (s : Objects) (i next : ℕ) (entries : Locs)
    → Living s entries
    → length s ≤ next
    → Apart i entries
    → Separate (("", next) ∷ ("", i) ∷ []) entries
unfolding Separate Apart Living
Separate-ends s i next [] l h a = tt
Separate-ends s i next ((k, r) ∷ entries) ((state, found), l) h (a, as_) = (
  (λ e. absurd (omega (arith, get_elem?-lt_length s r _ found, e)), (λ e. a (sym e), tt)),
  Separate-ends s i next entries l h as_,
)
