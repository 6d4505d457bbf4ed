-- ===== src/Envelope/Requests.antt =====
-- packages/application/src/documents/idempotency.ts: a command is executed once for each key. The
-- digest of `JSON.stringify` is the `sha256_json` of the runtime.
pub mod Replay
use bug_free_fiesta.Program.{
  on_idempotency, throw, pure, next_id, lift, ◌>>◌, gets, ◌>>=◌, Handler, Runtime,
}
use bug_free_fiesta.Prelude.{
  true, if◌then◌else◌, ◌||◌, str_eq, ltb, ℕ, ◌&&◌, [], is_none, ◌∷◌, ◌+◌, some, none, if◌then◌else◌,
  not, String, Bool, Option,
}
use Prim.Native.Char.{code}
use bug_free_fiesta.Domain.Errors.{
  err, ok, validation_error, guard, throw_if, Result, conflict_error, ApplicationError,
}
use bug_free_fiesta.Domain.Json.{end, object, Json, prop, Props}
use bug_free_fiesta.Domain.Entities.{Payload, IdempotencyRecord}
use bug_free_fiesta.Domain.Text.{codes, utf16_length, is_space}
use bug_free_fiesta.Store.Ledger.{create_idempotency, find_idempotency, IdempotencyScope}
use bug_free_fiesta.Domain.Canonical.{key_before}
use bug_free_fiesta.Domain.Statuses.{AuditActorType}

-- `value.trim()`
abbrev trim_start : String → String
trim_start String.[] = String.[]
trim_start (String.◌∷◌ c s) = if is_space (code c) then trim_start s else String.◌∷◌ c s

abbrev keep_last : Bool → String → String → String
keep_last true whole String.[] = String.[]
keep_last blank whole rest = whole

abbrev trim_end : String → String
trim_end String.[] = String.[]
trim_end (String.◌∷◌ c s) =
    let rest = trim_end s in keep_last (is_space (code c)) (String.◌∷◌ c rest) rest

unfoldable pub trim : String → String
unfolding is_space
trim value = trim_end (trim_start value)

abbrev checked_key : String → Result String
checked_key key =
    if ltb (utf16_length (codes key)) 8 || ltb 128 (utf16_length (codes key))
    then err (validation_error (("field", "Idempotency-Key") ∷ ("reason", "invalid") ∷ []))
    else ok key

unfoldable pub require_idempotency_key : String → Result String
unfolding trim utf16_length
require_idempotency_key value = checked_key (trim value)

-- `Object.keys(value).sort()`, with the values: the keys of one object, the nested ones as they are.
unfoldable pub insert_key : String → Json → Props → Props
unfolding key_before
insert_key key value end = prop key value end
insert_key key value (prop other w rest) =
    if key_before other key
    then prop other w (insert_key key value rest)
    else prop key value (prop other w rest)

unfoldable pub stable_json : Props → Props
unfolding insert_key
stable_json end = end
stable_json (prop key value rest) = insert_key key value (stable_json rest)

pub record BeginInput : Type 0 where
  pub scope : IdempotencyScope
  pub principal_type : AuditActorType
  pub request : Payload
  pub now : ℕ
  pub ttl_ms : ℕ
  pub reuse_in_progress : Bool

pub data Begun : Type 0 where
  replay : IdempotencyRecord → Begun
  fresh : IdempotencyRecord → Begun

abbrev pub has_response : IdempotencyRecord → Bool
has_response existing =
    not (is_none existing.response_body) && not (is_none existing.response_status)

abbrev pub idempotency_replay : ApplicationError
idempotency_replay = conflict_error (("reason", "idempotency_replay") ∷ [])

abbrev pub idempotency_in_progress : ApplicationError
idempotency_in_progress = conflict_error (("reason", "idempotency_in_progress") ∷ [])

abbrev pub new_record : BeginInput → String → String → IdempotencyRecord
new_record input request_hash id = record {
  id = id;
  organization_id = input.scope.organization_id;
  principal_type = input.principal_type;
  principal_id = input.scope.principal_id;
  route = input.scope.route;
  key = input.scope.key;
  request_hash = request_hash;
  request_id = none;
  response_status = none;
  response_body = none;
  expires_at = input.now + input.ttl_ms;
  created_at = input.now;
  updated_at = input.now;
}

module _ (rt : Runtime) where
  abbrev pub request_hash_of : BeginInput → String
  request_hash_of input = rt.sha256_json (object (stable_json input.request))

  abbrev resume : Bool → IdempotencyRecord → Handler Begun
  resume reuse_in_progress existing =
      if has_response existing
      then pure (Begun.replay existing)
      else (if reuse_in_progress then pure (fresh existing) else throw idempotency_in_progress)

  -- What the record that is found, or that is missing, leads to.
  unfoldable pub begin_from : BeginInput → Option IdempotencyRecord → Handler Begun
  begin_from input (some existing) = do
    lift (guard (str_eq existing.request_hash (request_hash_of input)) idempotency_replay)
    resume input.reuse_in_progress existing
  begin_from input none = do
    id ← next_id rt
    made ← on_idempotency (
        create_idempotency input.scope.organization_id
          (new_record input (request_hash_of input) id))
    pure (fresh made)

  unfoldable pub replay_or_begin_idempotency : BeginInput → Handler Begun
  replay_or_begin_idempotency input = do
    existing ← gets (λ s. find_idempotency input.scope s.idempotency_records)
    begin_from input existing
