-- ===== src/Locs/Cells.antt =====
-- The cells of the store that LocsState and the LOCs of packages/client/src/Loc.ts live in: what
-- replacing one live LOC does to them.
use logion_api.Common.{
  ℕ, zero, suc, ◌<◌, ◌≡◌, refl, ap, ◌∙◌, true, false, none, some, List, [], ◌∷◌, ◌++◌, length,
  get_elem?, set, Result, ok, arith,
}
use logion_api.State.{Cell, Method, new_state, is_discarded, replace_on_success}
use logion_api.State.Live.{discard_on_success_live, replace_on_success_live}
use logion_api.Locs.{
  LocRequestState, Content, of_loc, Objects, content_loc, loc_at, replace_current, copy_with,
  with_locs, and_then,
}

-- a live object
abbrev pub live : {A : Type 0} → A → Cell A
live content = record { discarded = false; next_state = none; content = content }

-- an object that was replaced
abbrev pub replaced_by : {A : Type 0} → ℕ → A → Cell A
replaced_by next content = record { discarded = true; next_state = some next; content = content }

pub get_elem?-lt_length :
    {A : Type 0} (xs : List A) (i : ℕ) (x : A) → get_elem? xs i ≡ some x → i < length xs
get_elem?-lt_length [] i x h = cc
get_elem?-lt_length (y ∷ xs) zero x h = omega arith
get_elem?-lt_length (y ∷ xs) (suc i) x h = omega (arith, get_elem?-lt_length xs i x h)

pub get_elem?-append_old :
    {A : Type 0} (xs ys : List A) (i : ℕ) → i < length xs → get_elem? (xs ++ ys) i ≡ get_elem? xs i
get_elem?-append_old [] ys i h = absurd (omega arith)
get_elem?-append_old (x ∷ xs) ys zero h = refl
get_elem?-append_old (x ∷ xs) ys (suc i) h = get_elem?-append_old xs ys i (omega arith)

pub get_elem?-append_new :
    {A : Type 0} (xs : List A) (y : A) → get_elem? (xs ++ y ∷ []) (length xs) ≡ some y
get_elem?-append_new [] y = refl
get_elem?-append_new (x ∷ xs) y = get_elem?-append_new xs y

-- the rest of a method, after a step that does not throw
pub then_ok :
    {A B : Type 0} (run : Result A × Objects) (after : A → Method Content B) (a : A) (s : Objects)
    → run ≡ (ok a, s)
    → and_then run after ≡ after a s
unfolding and_then
then_ok {A} {B} run after a s e = ap (λ (r : Result A × Objects). and_then r after) e

-- an action that makes a new object, run on a live state
pub replace_current_live :
    (action : ℕ → Method Content ℕ) (i next : ℕ) (s s' : Objects) (c c' : Content)
    → get_elem? s i ≡ some (live c)
    → action i s ≡ (ok next, s')
    → get_elem? s' i ≡ some (live c')
    → replace_current action i s ≡ (ok next, set s' i (replaced_by next c'))
unfolding replace_current is_discarded
replace_current_live action i next s s' c c' found acted kept =
    let at_first : is_discarded s i ≡ false = rw (found, is_discarded) in
    let at_last : is_discarded s' i ≡ false = rw (kept, is_discarded) in
    let ended =
      ap (replace_on_success i) acted ∙ replace_on_success_live s' i at_last next (live c') kept in
    rw (discard_on_success_live s i at_first (suc (length s)) action, replace_current) ended

module _ (target i : ℕ) (s : Objects) (state : LocRequestState)
    (found : get_elem? s i ≡ some (live (of_loc state))) where
  -- the store after a LOC was given its new LocsState
  abbrev pub rehomed : Objects
  rehomed =
      set (s ++ live (of_loc (record state { locs_state = target })) ∷ []) i
        (replaced_by (length s) (of_loc state))

  pub with_locs_live : with_locs target i s ≡ (ok (length s), rehomed)
  unfolding with_locs loc_at content_loc copy_with new_state
  with_locs_live =
      let at_loc : loc_at s i ≡ some state = rw (found, loc_at) in
      let copied : copy_with target state.loc_class i s
          ≡ (ok (length s), s ++ live (of_loc (record state { locs_state = target })) ∷ []) =
        rw (at_loc, copy_with) in
      let kept : get_elem? (s ++ live (of_loc (record state { locs_state = target })) ∷ []) i
          ≡ some (live (of_loc state)) =
        get_elem?-append_old s _ i (get_elem?-lt_length s i _ found) ∙ found in
      rw (at_loc, with_locs) (replace_current_live _ i (length s) s _ _ _ found copied kept)
