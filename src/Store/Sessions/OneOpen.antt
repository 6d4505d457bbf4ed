-- ===== src/Store/Sessions/OneOpen.antt =====
-- A signer has at most one open session.
use bug_free_fiesta.Domain.Errors.{ok}
use bug_free_fiesta.Store.Rows.{find_row, replace_row, update_row-ok}
use bug_free_fiesta.Store.Sessions.{
  is_open_status, ◌∷◌, any, Bool, SigningSession, List, SessionKey, String, is_open_for,
  create_session, update_session, has_session_key, session_missing,
}
use bug_free_fiesta.Store.Sessions.Moves.{SessionUpdate, act, closed_stays_closed}
use bug_free_fiesta.Store.Sessions.{revoke_row, present_row, expire_row, rotate_row, complete_row}
use bug_free_fiesta.Prelude.{
  sym, subst, refl, inr, eq_iff, arith, inl, Bool-cases, [], ◌++◌, true, some, false, ◌≡◌,
}

-- No two open sessions of the list belong to the same signer of the same organization.
abbrev pub OneOpen : List SigningSession → Type 0
OneOpen [] = Unit {0}
OneOpen (row ∷ rows) =
    (is_open_status row.status ≡ true
      → any (is_open_for row.organization_id row.signer_id) rows ≡ false)
    × OneOpen rows

any-append_one :
    (q : SigningSession → Bool) (rows : List SigningSession) (last : SigningSession)
    → any q rows ≡ false
    → q last ≡ false
    → any q (rows ++ last ∷ []) ≡ false
any-append_one q [] last h k = ground arith
any-append_one q (row ∷ rows) last h k = ground (arith, any-append_one q rows last)

-- `last` opens no second session beside one of `rows`.
OneOpen-append :
    (rows : List SigningSession) (last : SigningSession)
    → any (is_open_for last.organization_id last.signer_id) rows ≡ false
    → OneOpen rows
    → OneOpen (rows ++ last ∷ [])
unfolding is_open_for
OneOpen-append [] last fresh h = ((λ _. refl), tt)
OneOpen-append (row ∷ rows) last fresh h = (
  λ opened. any-append_one (is_open_for row.organization_id row.signer_id) rows last (h.0 opened) (
      ground (
        arith,
        eq_iff row.organization_id last.organization_id,
        eq_iff last.organization_id row.organization_id,
        eq_iff row.signer_id last.signer_id,
        eq_iff last.signer_id row.signer_id,
      )),
  OneOpen-append rows last (ground arith) h.1,
)

-- Creating a session of the caller's organization, where it is not refused, leaves each signer at most
-- one open session.
pub create_session-OneOpen :
    (organization_id : String) (session : SigningSession) (rows rows' : List SigningSession)
    (made : SigningSession)
    → session.organization_id ≡ organization_id
    → OneOpen rows
    → create_session organization_id session rows ≡ ok (made, rows')
    → OneOpen rows'
unfolding create_session
create_session-OneOpen organization_id session rows rows' made same h e =
    let (fresh, grown) =
      (let t : (any (is_open_for organization_id session.signer_id) rows ≡ false)
            × (rows' ≡ rows ++ session ∷ []) =
          ground arith in
        t) in
    rw grown (OneOpen-append rows session (rw same fresh) h)

act_keeps :
    (u : SessionUpdate) (current next : SigningSession)
    → act u current ≡ ok next
    → (next.organization_id ≡ current.organization_id) × (next.signer_id ≡ current.signer_id)
unfolding act revoke_row present_row expire_row rotate_row complete_row
act_keeps (SessionUpdate.revokes revoked_at) current next h = ground arith
act_keeps (SessionUpdate.presents presented_at) current next h = ground arith
act_keeps SessionUpdate.expires current next h = ground arith
act_keeps (SessionUpdate.rotates v t c a) current next h = ground arith
act_keeps (SessionUpdate.completes completed_at) current next h = ground arith

module _ (p : SigningSession → Bool) (current next : SigningSession)
    (org : next.organization_id ≡ current.organization_id)
    (signer : next.signer_id ≡ current.signer_id)
    (closes : is_open_status current.status ≡ false → is_open_status next.status ≡ false) where
  any-replace_row :
      (organization_id signer_id : String) (rows : List SigningSession)
      → find_row p rows ≡ some current
      → any (is_open_for organization_id signer_id) rows ≡ false
      → any (is_open_for organization_id signer_id) (replace_row p next rows) ≡ false
  unfolding find_row replace_row is_open_for
  any-replace_row organization_id signer_id [] found h = cc
  any-replace_row organization_id signer_id (row ∷ rows) found h = elim (Bool-cases (p row)) [
    | inl hit ↦ ground arith
    | inr miss ↦ ground (arith, any-replace_row organization_id signer_id rows)
  ]

  OneOpen-replace_row :
      (rows : List SigningSession)
      → find_row p rows ≡ some current
      → OneOpen rows
      → OneOpen (replace_row p next rows)
  unfolding find_row replace_row
  OneOpen-replace_row [] found h = tt
  OneOpen-replace_row (row ∷ rows) found h = elim (Bool-cases (p row)) [
    | inl hit ↦
        let same : row ≡ current = ground arith in
        let held = subst (λ r. OneOpen (r ∷ rows)) same h in
        rw hit ((λ opened. simp (org, signer) (held.0 (ground arith))), held.1)
    | inr miss ↦ rw miss (
      (λ opened.
          any-replace_row row.organization_id row.signer_id rows (ground arith) (h.0 opened)),
      OneOpen-replace_row rows (ground arith) h.1,
    )
  ]

-- Every update of a session that is accepted leaves each signer at most one open session.
pub act-OneOpen :
    (key : SessionKey) (u : SessionUpdate) (rows rows' : List SigningSession)
    (next : SigningSession)
    → OneOpen rows
    → update_session key (act u) rows ≡ ok (next, rows')
    → OneOpen rows'
unfolding update_session
act-OneOpen key u rows rows' next h e =
    let (current, found, stepped, written) =
      update_row-ok (has_session_key key) session_missing (act u) rows e in
    let (org, signer) = act_keeps u current next stepped in
    rw written (
      OneOpen-replace_row (has_session_key key) current next org signer
        (λ c.
          subst (λ s. is_open_status s ≡ false) (sym (closed_stays_closed u current next c stepped))
            c)
        rows found h)
