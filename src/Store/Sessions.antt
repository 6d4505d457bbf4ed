-- ===== src/Store/Sessions.antt =====
-- `createMemorySigningSessionStore` of packages/application/src/documents/memory-adapters.ts.
pub mod Moves
pub mod OneOpen
use bug_free_fiesta.Domain.Errors.{
  guard, throw_if, ◌>>◌, Result, ok, err, ApplicationError, conflict_error, not_found_error,
}
use bug_free_fiesta.Domain.Entities.{SigningSession}
use bug_free_fiesta.Store.Rows.{find_row, update_row}
use bug_free_fiesta.Prelude.{
  ◌+◌, some, is_none, ◌++◌, any, ◌&&◌, ◌==◌, [], str_eq, if◌then◌else◌, keep_if, Option, List, ◌∷◌,
  String, Bool, ℕ,
}
use bug_free_fiesta.Domain.Lifecycle.{is_open_status}
use bug_free_fiesta.Domain.Statuses.{SigningSessionStatus, signing_session_status_eq}

pub record SessionKey : Type 0 where
  pub organization_id : String
  pub session_id : String

unfoldable pub has_session_key : SessionKey → SigningSession → Bool
has_session_key key row =
    str_eq row.organization_id key.organization_id && str_eq row.id key.session_id

abbrev session_missing : ApplicationError
session_missing = not_found_error (("resource", "signing_session") ∷ [])

unfoldable pub find_session : SessionKey → List SigningSession → Option SigningSession
find_session key = find_row (has_session_key key)

unfoldable pub sessions_of_document : String → String → List SigningSession → List SigningSession
sessions_of_document organization_id document_id =
    keep_if
      (λ row. str_eq row.organization_id organization_id && str_eq row.document_id document_id)

unfoldable pub is_open_for : String → String → SigningSession → Bool
is_open_for organization_id signer_id row =
    str_eq row.organization_id organization_id
    && str_eq row.signer_id signer_id
    && is_open_status row.status

unfoldable pub open_sessions_of_signer : String → String → List SigningSession → List SigningSession
unfolding is_open_for
open_sessions_of_signer organization_id signer_id = keep_if (is_open_for organization_id signer_id)

unfoldable pub create_session :
    String → SigningSession → List SigningSession → Result (SigningSession × List SigningSession)
unfolding is_open_for
create_session organization_id session rows = do
  throw_if (any (is_open_for organization_id session.signer_id) rows)
      (conflict_error (("reason", "duplicate_open_session") ∷ []))
  ok (session, rows ++ session ∷ [])

unfoldable pub revoke_row : ℕ → SigningSession → Result SigningSession
revoke_row revoked_at current = do
  guard (is_open_status current.status) (conflict_error (("reason", "session_not_open") ∷ []))
  ok (record current { status = SigningSessionStatus.revoked; revoked_at = some revoked_at })

unfoldable pub present_row : ℕ → SigningSession → Result SigningSession
present_row presented_at current =
    if signing_session_status_eq current.status SigningSessionStatus.active
    then ok (record current { last_presented_at = some presented_at })
    else if signing_session_status_eq current.status SigningSessionStatus.issued
    then ok (record current {
      status = SigningSessionStatus.active;
      last_presented_at = some presented_at;
    })
    else err (conflict_error (("reason", "session_not_presentable") ∷ []))

unfoldable pub expire_row : SigningSession → Result SigningSession
expire_row current = do
  guard (is_open_status current.status) (conflict_error (("reason", "session_not_open") ∷ []))
  ok (record current { status = SigningSessionStatus.expired })

unfoldable pub rotate_row : ℕ → String → String → ℕ → SigningSession → Result SigningSession
rotate_row expected_version token_hash csrf_token_hash consumed_at current = do
  guard
      (current.version == expected_version
        && is_none current.consumed_at
        && is_open_status current.status)
      (conflict_error (("reason", "session_not_exchangeable") ∷ []))
  ok (record current {
    token_hash = token_hash;
    csrf_token_hash = some csrf_token_hash;
    consumed_at = some consumed_at;
    status = SigningSessionStatus.active;
    last_presented_at = some consumed_at;
    version = current.version + 1;
  })

unfoldable pub complete_row : ℕ → SigningSession → Result SigningSession
complete_row completed_at current =
    if signing_session_status_eq current.status SigningSessionStatus.completed
    then ok current
    else if is_open_status current.status
    then ok (record current {
      status = SigningSessionStatus.completed;
      completed_at = some completed_at;
    })
    else err (conflict_error (("reason", "session_not_completable") ∷ []))

unfoldable pub update_session :
    SessionKey
    → (SigningSession → Result SigningSession)
    → List SigningSession
    → Result (SigningSession × List SigningSession)
update_session key = update_row (has_session_key key) session_missing

unfoldable pub find_by_token_hash : String → List SigningSession → Option SigningSession
find_by_token_hash token_hash = find_row (λ row. str_eq row.token_hash token_hash)
