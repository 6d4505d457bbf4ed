-- ===== src/Envelope/Requests/Replay.antt =====
-- What a later request with the key of an answered one finds.
use bug_free_fiesta.Program.{◌>>=◌, throw, lift, pure, gets, Runtime, done, Repositories}
use bug_free_fiesta.Prelude.{
  Memᴰ, eq_iff, Option-cases, ◌&&◌, ◌∙◌, subst, ap, sym, refl, eq_refl, inr, inl, Bool-cases, arith,
  [], ◌∷◌, ◌++◌, none, true, false, str_eq, ◌≡◌, some, All, List, String, Bool,
}
use bug_free_fiesta.Domain.Entities.{Payload, IdempotencyRecord}
use bug_free_fiesta.Store.Rows.{find_row-mem, find_row-holds, update_row-ok, replace_row, find_row}
use bug_free_fiesta.Store.Ledger.{
  find_idempotency, complete_idempotency, in_scope, create_idempotency,
}
use bug_free_fiesta.Envelope.Requests.{
  IdempotencyScope, has_response, request_hash_of, find_idempotency, Option, Begun, ◌>>=◌, pure,
  throw, lift, gets, new_record, ok, begin_from, BeginInput, replay_or_begin_idempotency,
}
use bug_free_fiesta.Program.Done.{lift-done, next_id-done, on_idempotency-done, gets-done}

-- No row has the id.
abbrev pub Unused : String → List IdempotencyRecord → Type 0
Unused id = All (λ row. str_eq row.id id ≡ false)

abbrev pub completed_row : IdempotencyRecord → Payload → IdempotencyRecord
completed_row row body = record row { response_status = some 200; response_body = some body }

module _ {ℓ} {A : Type ℓ} (p q : A → Bool) (new next : A) where
  find_row-last :
      (rows : List A)
      → All (λ row. p row ≡ false) rows
      → p new ≡ true
      → find_row p (rows ++ new ∷ []) ≡ some new
  unfolding find_row
  find_row-last [] h k = ground arith
  find_row-last (row ∷ rows) h k = ground (arith, h.0, find_row-last rows h.1 k)

  find_row-replaced_last :
      (rows : List A)
      → All (λ row. p row ≡ false) rows
      → p new ≡ true
      → q next ≡ true
      → find_row q rows ≡ none
      → find_row q (replace_row p next (rows ++ new ∷ [])) ≡ some next
  unfolding find_row replace_row
  find_row-replaced_last [] h k l miss = ground arith
  find_row-replaced_last (row ∷ rows) h k l miss = elim (Bool-cases (q row)) [
    | inl hit ↦ absurd (ground arith)
    | inr other ↦ ground (arith, h.0, find_row-replaced_last rows h.1 k l (ground arith))
  ]

created :
    (organization_id : String) (row made : IdempotencyRecord) (rows rows' : List IdempotencyRecord)
    → create_idempotency organization_id row rows ≡ ok (made, rows')
    → (made ≡ row) × (rows' ≡ rows ++ row ∷ [])
unfolding create_idempotency
created organization_id row made rows rows' h = (ground arith, ground arith)

in_own_scope :
    (input : BeginInput) (hash id : String) (body : Payload)
    → in_scope input.scope (completed_row (new_record input hash id) body) ≡ true
unfolding in_scope
in_own_scope input hash id body = ground (
  arith,
  eq_refl input.scope.organization_id,
  eq_refl input.scope.principal_id,
  eq_refl input.scope.route,
  eq_refl input.scope.key,
)

-- A record that answers the requests of one principal, route and key that have the given digest.
pub record StoredFor (request_hash : String) (scope : IdempotencyScope)
    (rows : List IdempotencyRecord) (row : IdempotencyRecord) : Type 0 where
  pub listed : Memᴰ row rows
  pub organization : row.organization_id ≡ scope.organization_id
  pub principal : row.principal_id ≡ scope.principal_id
  pub route : row.route ≡ scope.route
  pub key : row.key ≡ scope.key
  pub hashed : row.request_hash ≡ request_hash
  pub answered : (body : Payload) × (row.response_body ≡ some body)

in_scope-fields :
    (scope : IdempotencyScope) (row : IdempotencyRecord)
    → in_scope scope row ≡ true
    → (row.organization_id ≡ scope.organization_id)
      × (row.principal_id ≡ scope.principal_id)
      × (row.route ≡ scope.route)
      × (row.key ≡ scope.key)
unfolding in_scope
in_scope-fields scope row h = (
  (eq_iff row.organization_id scope.organization_id).0 (ground arith),
  (eq_iff row.principal_id scope.principal_id).0 (ground arith),
  (eq_iff row.route scope.route).0 (ground arith),
  (eq_iff row.key scope.key).0 (ground arith),
)

is_answered :
    (row : IdempotencyRecord)
    → has_response row ≡ true
    → (body : Payload) × (row.response_body ≡ some body)
is_answered row h = elim (Option-cases row.response_body) [
  | inl missing ↦ absurd (ground arith)
  | inr given ↦ given
]

module _ (rt : Runtime) where
  begin_from-fresh :
      (input : BeginInput) (o : Option IdempotencyRecord) (s u : Repositories)
      (row : IdempotencyRecord)
      → input.reuse_in_progress ≡ false
      → begin_from rt input o s ≡ done (Begun.fresh row) u
      → (o ≡ none)
        × (row ≡ new_record input (request_hash_of rt input) (rt.id_at s.ids_drawn))
        × (u.idempotency_records ≡ s.idempotency_records ++ row ∷ [])
  unfolding begin_from pure throw
  begin_from-fresh input none s u row once h =
      let (made, rows, stored, h1) = on_idempotency-done _ _ _ (next_id-done rt _ s h) in
      let (same, grown) = created _ _ made s.idempotency_records rows stored in
      let answer : made ≡ row = ground arith in
      let kept : u.idempotency_records ≡ rows = ground arith in
      (
        refl,
        sym answer ∙ same,
        kept ∙ (grown ∙ ap (λ r. s.idempotency_records ++ r ∷ []) (sym same ∙ answer)),
      )
  begin_from-fresh input (some existing) s u row once h =
      let (_, allowed, h1) = lift-done _ _ h in absurd (ground arith)

  begin_from-replay :
      (input : BeginInput) (o : Option IdempotencyRecord) (s u : Repositories)
      (row : IdempotencyRecord)
      → begin_from rt input o s ≡ done (Begun.replay row) u
      → (o ≡ some row)
        × (str_eq row.request_hash (request_hash_of rt input) ≡ true)
        × (has_response row ≡ true)
        × (u ≡ s)
  unfolding begin_from pure throw
  begin_from-replay input none s u row h =
      let (made, rows, stored, h1) = on_idempotency-done _ _ _ (next_id-done rt _ s h) in
      absurd (ground arith)
  begin_from-replay input (some existing) s u row h =
      let (_, same, h1) = lift-done _ _ h in
      let hashed : str_eq existing.request_hash (request_hash_of rt input) ≡ true = ground arith in
      let shown : existing ≡ row = ground arith in
      let answered : has_response existing ≡ true = ground arith in
      (
        ap some shown,
        subst (λ r. str_eq r.request_hash (request_hash_of rt input) ≡ true) shown hashed,
        subst (λ r. has_response r ≡ true) shown answered,
        ground arith,
      )

  -- A command that was begun anew: nothing was stored under its key, and now its record is.
  pub replay_or_begin-fresh :
      (input : BeginInput) (s u : Repositories) (row : IdempotencyRecord)
      → input.reuse_in_progress ≡ false
      → replay_or_begin_idempotency rt input s ≡ done (Begun.fresh row) u
      → (find_idempotency input.scope s.idempotency_records ≡ none)
        × (row ≡ new_record input (request_hash_of rt input) (rt.id_at s.ids_drawn))
        × (u.idempotency_records ≡ s.idempotency_records ++ row ∷ [])
  unfolding replay_or_begin_idempotency
  replay_or_begin-fresh input s u row once h =
      begin_from-fresh input (find_idempotency input.scope s.idempotency_records) s u row once
        (gets-done _ _ h)

  -- A command whose key an answered request has: that request was the same, and nothing changes.
  pub replay_or_begin-replay :
      (input : BeginInput) (s u : Repositories) (row : IdempotencyRecord)
      → replay_or_begin_idempotency rt input s ≡ done (Begun.replay row) u
      → (find_idempotency input.scope s.idempotency_records ≡ some row)
        × (str_eq row.request_hash (request_hash_of rt input) ≡ true)
        × (has_response row ≡ true)
        × (u ≡ s)
  unfolding replay_or_begin_idempotency
  replay_or_begin-replay input s u row h =
      begin_from-replay input (find_idempotency input.scope s.idempotency_records) s u row
        (gets-done _ _ h)

  pub replay_or_begin-answered :
      (input : BeginInput) (s : Repositories) (row : IdempotencyRecord)
      → find_idempotency input.scope s.idempotency_records ≡ some row
      → str_eq row.request_hash (request_hash_of rt input) ≡ true
      → has_response row ≡ true
      → replay_or_begin_idempotency rt input s ≡ done (Begun.replay row) s
  unfolding replay_or_begin_idempotency begin_from gets lift pure ◌>>=◌
  replay_or_begin-answered input s row found same answered = rw (found, same, answered) refl

  -- The record that is found is stored under the very key of the request, and holds an answer.
  pub replay_or_begin-StoredFor :
      (input : BeginInput) (s u : Repositories) (row : IdempotencyRecord)
      → replay_or_begin_idempotency rt input s ≡ done (Begun.replay row) u
      → StoredFor (request_hash_of rt input) input.scope s.idempotency_records row × (u ≡ s)
  unfolding find_idempotency
  replay_or_begin-StoredFor input s u row h =
      let (found, hashed, complete, same) = replay_or_begin-replay input s u row h in
      let (organization, principal, route, key) =
        in_scope-fields input.scope row
          (find_row-holds (in_scope input.scope) s.idempotency_records row found) in
      (
        record {
          listed = find_row-mem (in_scope input.scope) s.idempotency_records row found;
          organization = organization;
          principal = principal;
          route = route;
          key = key;
          hashed = (eq_iff row.request_hash (request_hash_of rt input)).0 hashed;
          answered = is_answered row complete;
        },
        same,
      )

unused :
    (organization_id id : String) (rows : List IdempotencyRecord)
    → Unused id rows
    → All (λ row. (str_eq row.organization_id organization_id && str_eq row.id id) ≡ false) rows
unused organization_id id [] h = tt
unused organization_id id (row ∷ rows) h = (ground (arith, h.0), unused organization_id id rows h.1)

-- Once the new record is completed, it is what its key leads to.
pub completed_found :
    (input : BeginInput) (hash id : String) (body : Payload) (rows rows' : List IdempotencyRecord)
    (next : IdempotencyRecord)
    → Unused id rows
    → find_idempotency input.scope rows ≡ none
    → complete_idempotency input.scope.organization_id id 200 body
        (rows ++ new_record input hash id ∷ [])
      ≡ ok (next, rows')
    → find_idempotency input.scope rows' ≡ some (completed_row (new_record input hash id) body)
unfolding complete_idempotency find_idempotency
completed_found input hash id body rows rows' next new_id missed h =
    let new = new_record input hash id in
    let p : IdempotencyRecord → Bool =
      λ row. str_eq row.organization_id input.scope.organization_id && str_eq row.id id in
    let (current, found, stepped, stored) = update_row-ok p _ _ (rows ++ new ∷ []) h in
    let others = unused input.scope.organization_id id rows new_id in
    let mine : p new ≡ true = ground (arith, eq_refl input.scope.organization_id, eq_refl id) in
    let last = find_row-last p p new new rows others mine in
    let same : current ≡ new = ground arith in
    let completed : completed_row new body ≡ next = ground arith in
    rw (stored, ← completed)
      (find_row-replaced_last p (in_scope input.scope) new (completed_row new body) rows others mine
        (in_own_scope input hash id body) missed)
