-- ===== src/Store/Sessions/Moves.antt =====
-- How the updates of a session's row fit the transition table of sessions.
use bug_free_fiesta.Domain.Statuses.{SigningSessionStatus}
use bug_free_fiesta.Store.Sessions.{
  conflict_error, err, ok, String, Result, ℕ, SigningSession, revoke_row, present_row, expire_row,
  rotate_row, complete_row,
}
use bug_free_fiesta.Domain.Lifecycle.{is_open_status, can_transition_signing_session}
use bug_free_fiesta.Prelude.{inr, inl, List, is_none, [], ◌∷◌, true, ◌⊎◌, arith, false, ◌≡◌}
use bug_free_fiesta.Domain.Errors.{ok_or_err}

-- The updates that `signingSessions` offers on a row.
pub data SessionUpdate : Type 0 where
  revokes : (revoked_at : ℕ) → SessionUpdate
  presents : (presented_at : ℕ) → SessionUpdate
  expires : SessionUpdate
  rotates : (version : ℕ) (token_hash csrf_token_hash : String) (consumed_at : ℕ) → SessionUpdate
  completes : (completed_at : ℕ) → SessionUpdate

unfoldable pub act : SessionUpdate → SigningSession → Result SigningSession
act (revokes revoked_at) = revoke_row revoked_at
act (presents presented_at) = present_row presented_at
act expires = expire_row
act (rotates version token_hash csrf_token_hash consumed_at) =
    rotate_row version token_hash csrf_token_hash consumed_at
act (completes completed_at) = complete_row completed_at

-- An accepted update leaves the status as it is, or moves it as the table says, or, which the table
-- does not have, completes a session that was only issued.
pub act_moves :
    (u : SessionUpdate) (current next : SigningSession)
    → act u current ≡ ok next
    → (next.status ≡ current.status)
      ⊎ (can_transition_signing_session current.status next.status ≡ true)
      ⊎ ((current.status ≡ SigningSessionStatus.issued)
          × (next.status ≡ SigningSessionStatus.completed))
unfolding act revoke_row present_row expire_row rotate_row complete_row
    can_transition_signing_session
act_moves (revokes revoked_at) current next h = ground arith
act_moves (presents presented_at) current next h = ground arith
act_moves expires current next h = ground arith
act_moves (rotates version token_hash csrf_token_hash consumed_at) current next h = ground arith
act_moves (completes completed_at) current next h = ground arith

-- A session that is completed, expired or revoked is never opened again, whatever is tried on it.
pub closed_stays_closed :
    (u : SessionUpdate) (current next : SigningSession)
    → is_open_status current.status ≡ false
    → act u current ≡ ok next
    → next.status ≡ current.status
unfolding act revoke_row present_row expire_row rotate_row complete_row
closed_stays_closed (revokes revoked_at) current next closed h = ground arith
closed_stays_closed (presents presented_at) current next closed h = ground arith
closed_stays_closed expires current next closed h = ground arith
closed_stays_closed (rotates version token_hash csrf_token_hash consumed_at) current next closed h =
    ground arith
closed_stays_closed (completes completed_at) current next closed h = ground arith

-- The row after a sequence of updates, each of which may be refused and then leaves it alone.
unfoldable pub after_updates : List SessionUpdate → SigningSession → SigningSession
unfolding act
after_updates [] row = row
after_updates (u ∷ updates) row = elim (act u row) [
  | err e ↦ after_updates updates row
  | ok next ↦ after_updates updates next
]

stays_consumed :
    (u : SessionUpdate) (current next : SigningSession)
    → is_none current.consumed_at ≡ false
    → act u current ≡ ok next
    → is_none next.consumed_at ≡ false
unfolding act revoke_row present_row expire_row rotate_row complete_row
stays_consumed (revokes revoked_at) current next used h = ground arith
stays_consumed (presents presented_at) current next used h = ground arith
stays_consumed expires current next used h = ground arith
stays_consumed (rotates version token_hash csrf_token_hash consumed_at) current next used h =
    ground arith
stays_consumed (completes completed_at) current next used h = ground arith

after_updates-consumed :
    (updates : List SessionUpdate) (row : SigningSession)
    → is_none row.consumed_at ≡ false
    → is_none (after_updates updates row).consumed_at ≡ false
unfolding after_updates
after_updates-consumed [] row used = used
after_updates-consumed (u ∷ updates) row used = elim (ok_or_err (act u row)) [
  | inl (next, accepted) ↦ ground (
    arith,
    accepted,
    after_updates-consumed updates next (stays_consumed u row next used accepted),
  )
  | inr (e, refused) ↦ ground (arith, refused, after_updates-consumed updates row used)
]

rotated_consumed :
    (version : ℕ) (token_hash csrf_token_hash : String) (consumed_at : ℕ)
    (current next : SigningSession)
    → rotate_row version token_hash csrf_token_hash consumed_at current ≡ ok next
    → is_none next.consumed_at ≡ false
unfolding rotate_row
rotated_consumed version token_hash csrf_token_hash consumed_at current next h = ground arith

consumed_refuses :
    (later : ℕ) (next_hash next_csrf : String) (at : ℕ) (row : SigningSession)
    → is_none row.consumed_at ≡ false
    → rotate_row later next_hash next_csrf at row
      ≡ err (conflict_error (("reason", "session_not_exchangeable") ∷ []))
unfolding rotate_row
consumed_refuses later next_hash next_csrf at row used = ground arith

-- A session is exchanged at most once: after an accepted exchange and any sequence of updates of its
-- row, accepted or refused, a further exchange is refused, at whatever version.
pub exchanged_once :
    (version later : ℕ) (token_hash csrf_token_hash next_hash next_csrf : String)
    (consumed_at at : ℕ) (updates : List SessionUpdate) (current next : SigningSession)
    → rotate_row version token_hash csrf_token_hash consumed_at current ≡ ok next
    → rotate_row later next_hash next_csrf at (after_updates updates next)
      ≡ err (conflict_error (("reason", "session_not_exchangeable") ∷ []))
exchanged_once version later token_hash csrf_token_hash next_hash next_csrf consumed_at at updates
      current next h =
    consumed_refuses later next_hash next_csrf at (after_updates updates next) (
      after_updates-consumed updates next
        (rotated_consumed version token_hash csrf_token_hash consumed_at current next h))
