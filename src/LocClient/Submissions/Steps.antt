-- ===== src/LocClient/Submissions/Steps.antt =====
-- The steps of the submission of collection items, packages/client/src/LocClient.ts.
use logion_api.Common.{
  ◌≡◌, refl, ap, ◌∙◌, ◌⊎◌, inl, inr, String, List, [], ◌∷◌, Result, ok, throw, Result-cases,
  Bool-cases, All2, if◌then◌else◌,
}
use logion_api.Hash.{Hash}
use logion_api.HashOrContent.{HashOrContent, has_content, finalize}
use logion_api.Calls.{
  Call, Piece, Body, request, upload, post, delete, new_backend_error, Run, reading, ◌>>=◌, ◌>>◌,
  backend, uploading,
}
use logion_api.Calls.Compensation.{call-cases}
use logion_api.Calls.Sequences.{
  Begun, Each, Each-then, append_nil, then_throw, then_ok, backend-cases,
}
use logion_api.LocClient.{ItemTx, Submittable, AuthenticatedLocClient}
use logion_api.Loc.Merging.{map_result}
use logion_api.LocClient.Submissions.{
  AddCollectionItemParams, Tools, terms_and_conditions, items_path, item_path, item_files_path,
  public_data, add_collection_item_submittable, submit_item, submit_items, cancel_items,
  upload_file, upload_files, upload_items,
}

-- the public data of the item are posted under its LOC
pub IsPost : AddCollectionItemParams → Call Submittable → Type 0
IsPost parameters call = (item : Body) × (call ≡ request post (items_path parameters.loc_id) item)

pub IsDeletion : AddCollectionItemParams → Call Submittable → Type 0
IsDeletion parameters call =
    call ≡ request delete (item_path parameters.loc_id parameters.item_id) []

pub IsUpload : Call Submittable → Type 0
IsUpload call = (path : List Piece) × (hash : Hash) × (call ≡ upload path hash)

first-Begun :
    (parameters : AddCollectionItemParams) (payload : List AddCollectionItemParams)
    (calls : List (Call Submittable))
    → Begun IsPost (parameters ∷ []) calls
    → Begun IsPost (parameters ∷ payload) calls
first-Begun parameters payload [] h = tt
first-Begun parameters payload (call ∷ []) (h, _) = (h, tt)
first-Begun parameters payload (call ∷ call' ∷ calls) (h, never) = absurd never

module _ {W : Type 0} (client : AuthenticatedLocClient W) (tools : Tools) where
  uploading-IsUpload :
      (path : List Piece) (hash : Hash) (w : W)
      → Each IsUpload (uploading client.outside path hash w).1
  unfolding uploading IsUpload
  uploading-IsUpload path hash w =
      elim (call-cases client.outside (client.outside (upload path hash) w)) [
        | inl (w', p) ↦ rw (p) ((path, hash, refl), tt)
        | inr (error, w', p) ↦ rw (p) ((path, hash, refl), tt)
      ]

  -- an item whose preparation has failed was posted or not
  submit_item-cases :
      (parameters : AddCollectionItemParams) (w : W)
      → ((message : String) × (calls : List (Call Submittable)) × (w' : W) × (submit_item client
              tools parameters w
            ≡ (throw message, calls, w'))
          × Begun IsPost (parameters ∷ []) calls)
        ⊎ ((item : AddCollectionItemParams × ItemTx) × (call : Call Submittable) × (w' : W)
            × (submit_item client tools parameters w ≡ (ok item, call ∷ [], w'))
            × IsPost parameters call)
  unfolding submit_item IsPost ◌>>=◌ ◌>>◌
  submit_item-cases parameters w = elim (Result-cases (map_result finalize parameters.item_files)) [
    | inr (message, e) ↦ inl (message, [], w, rw (e), tt)
    | inl (files, e) ↦ elim (Result-cases (terms_and_conditions tools parameters)) [
      | inr (message, f) ↦ inl (message, [], w, rw (e, f), tt)
      | inl (terms, f) ↦ elim (Result-cases (public_data tools parameters files terms)) [
        | inr (message, g) ↦ inl (message, [], w, rw (e, f, g), tt)
        | inl (item, g) ↦
            elim (backend-cases client.outside post (items_path parameters.loc_id) item w) [
              | inl (error, w', p) ↦ inl (
                new_backend_error error,
                request post (items_path parameters.loc_id) item ∷ [],
                w',
                rw (e, f, g, p),
                ((item, refl), tt),
              )
              | inr (w', p) ↦
                  elim (Result-cases
                    (add_collection_item_submittable client tools parameters files terms)) [
                      | inr (message, q) ↦ inl (
                        message,
                        request post (items_path parameters.loc_id) item ∷ [],
                        w',
                        rw (e, f, g, p, q),
                        ((item, refl), tt),
                      )
                      | inl (tx, q) ↦ inr (
                        (record parameters { item_files = files }, tx),
                        request post (items_path parameters.loc_id) item,
                        w',
                        rw (e, f, g, p, q),
                        (item, refl),
                      )
                    ]
            ]
      ]
    ]
  ]

  pub submit_items-cases :
      (payload : List AddCollectionItemParams) (w : W)
      → ((message : String) × (calls : List (Call Submittable)) × (w' : W) × (submit_items client
              tools payload w
            ≡ (throw message, calls, w'))
          × Begun IsPost payload calls)
        ⊎ ((items : List (AddCollectionItemParams × ItemTx)) × (calls : List (Call Submittable))
            × (w' : W) × (submit_items client tools payload w ≡ (ok items, calls, w'))
            × All2 IsPost payload calls
            × All2
                (λ (parameters : AddCollectionItemParams) (item : AddCollectionItemParams × ItemTx).
                  Unit {0})
                payload
                items)
  unfolding submit_items
  submit_items-cases [] w = inr ([], [], w, refl, tt, tt)
  submit_items-cases (parameters ∷ payload) w = elim (submit_item-cases parameters w) [
    | inl (message, calls, w', e, begun) ↦ inl (
      message,
      calls,
      w',
      then_throw _ _ w message calls w' e,
      first-Begun parameters payload calls begun,
    )
    | inr (item, call, w', e, posted) ↦ elim (submit_items-cases payload w') [
      | inl (message, calls, w'', f, begun) ↦ inl (
        message,
        call ∷ calls,
        w'',
        then_ok _ _ w item (call ∷ []) w' e
            ∙ ap
                (λ (r : Result (List (AddCollectionItemParams × ItemTx))
                    × List (Call Submittable)
                    × W).
                  (r.0, call ∷ r.1, r.2))
                (then_throw _ _ w' message calls w'' f),
        (posted, begun),
      )
      | inr (items, calls, w'', f, all, same) ↦ inr (
        item ∷ items,
        call ∷ calls,
        w'',
        then_ok _ _ w item (call ∷ []) w' e
            ∙ ap
                (λ (r : Result (List (AddCollectionItemParams × ItemTx))
                    × List (Call Submittable)
                    × W).
                  (r.0, call ∷ r.1, r.2))
                (then_ok _ _ w' items calls w'' f)
            ∙ ap (λ (cs : List (Call Submittable)). (ok (item ∷ items), call ∷ cs, w''))
                (append_nil calls),
        (posted, all),
        (tt, same),
      )
    ]
  ]

  pub cancel_items-cases :
      (payload : List AddCollectionItemParams) (w : W)
      → ((message : String) × (calls : List (Call Submittable)) × (w' : W) × (cancel_items client
              tools payload w
            ≡ (throw message, calls, w'))
          × Begun IsDeletion payload calls)
        ⊎ ((calls : List (Call Submittable)) × (w' : W) × (cancel_items client tools payload w
              ≡ (ok tt, calls, w'))
            × All2 IsDeletion payload calls)
  unfolding cancel_items IsDeletion ◌>>◌
  cancel_items-cases [] w = inr ([], w, refl, tt)
  cancel_items-cases (parameters ∷ payload) w =
      let path = item_path parameters.loc_id parameters.item_id in
      let deletion = backend client.outside delete path [] in
      let later : Unit {0} → Run Submittable W (Unit {0}) =
        λ _. cancel_items client tools payload in
      let add : Result (Unit {0}) × List (Call Submittable) × W
          → Result (Unit {0}) × List (Call Submittable) × W =
        λ r. (r.0, request delete path [] ∷ r.1, r.2) in
      elim (backend-cases client.outside delete path [] w) [
        | inl (error, w', p) ↦ inl (
          new_backend_error error,
          request delete path [] ∷ [],
          w',
          then_throw deletion later w (new_backend_error error) (request delete path [] ∷ []) w' p,
          (refl, tt),
        )
        | inr (w', p) ↦ elim (cancel_items-cases payload w') [
          | inl (message, calls, w'', f, begun) ↦ inl (
            message,
            request delete path [] ∷ calls,
            w'',
            then_ok deletion later w tt (request delete path [] ∷ []) w' p ∙ ap add f,
            (refl, begun),
          )
          | inr (calls, w'', f, all) ↦ inr (
            request delete path [] ∷ calls,
            w'',
            then_ok deletion later w tt (request delete path [] ∷ []) w' p ∙ ap add f,
            (refl, all),
          )
        ]
      ]

  upload_file-IsUpload :
      (path : List Piece) (file : HashOrContent) (w : W)
      → Each IsUpload (upload_file client tools path file w).1
  unfolding upload_file
  upload_file-IsUpload path file w = Each-then IsUpload _ _ w tt (uploading-IsUpload path)

  one_file-IsUpload :
      (path : List Piece) (file : HashOrContent) (w : W)
      → Each IsUpload
          ((if has_content file then upload_file client tools path file else reading (λ w. ok tt))
            w).1
  one_file-IsUpload path file w = elim (Bool-cases (has_content file)) [
    | inl has ↦ rw (has) (upload_file-IsUpload path file w)
    | inr not_has ↦ rw (not_has) tt
  ]

  upload_files-IsUpload :
      (path : List Piece) (files : List HashOrContent) (w : W)
      → Each IsUpload (upload_files client tools path files w).1
  unfolding upload_files ◌>>◌
  upload_files-IsUpload path [] w = tt
  upload_files-IsUpload path (file ∷ files) w =
      Each-then IsUpload
        (if has_content file then upload_file client tools path file else reading (λ w. ok tt))
        (λ _. upload_files client tools path files) w (one_file-IsUpload path file w)
        (λ _ w'. upload_files-IsUpload path files w')

  pub upload_items-IsUpload :
      (items : List (AddCollectionItemParams × ItemTx)) (w : W)
      → Each IsUpload (upload_items client tools items w).1
  unfolding upload_items ◌>>◌
  upload_items-IsUpload [] w = tt
  upload_items-IsUpload ((parameters, tx) ∷ items) w =
      Each-then IsUpload
        (upload_files client tools (item_files_path parameters.loc_id parameters.item_id)
          parameters.item_files)
        (λ _. upload_items client tools items) w
        (upload_files-IsUpload (item_files_path parameters.loc_id parameters.item_id)
          parameters.item_files w)
        (λ _ w'. upload_items-IsUpload items w')
