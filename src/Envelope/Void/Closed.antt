-- ===== src/Envelope/Void/Closed.antt =====
-- What a void leaves of the signing links of the document.
use bug_free_fiesta.Store.Rows.{find_row-replace_row, find_row, find_row-holds}
use bug_free_fiesta.Program.{>>=-eq-done, pure, write_session, Runtime, done, Repositories}
use bug_free_fiesta.Prelude.{
  ◌+◌, ap, ◌∙◌, sym, subst, eq_iff, eq_refl, inr, true, inl, ◌&&◌, false, ◌≡◌, str_eq, arith,
  Bool-cases, any, Bool, keep_if, All, [], map, ◌∷◌, String, List,
}
use bug_free_fiesta.Domain.Entities.{Document, SigningSession}
use bug_free_fiesta.Store.Rows.{map-replace_row, update_row-ok, replace_row}
use bug_free_fiesta.Domain.Lifecycle.{is_open_status}
use bug_free_fiesta.Store.Sessions.{
  sessions_of_document, update_session, revoke_row, has_session_key,
}
use bug_free_fiesta.Store.Sessions.Moves.{act}
use bug_free_fiesta.Envelope.Void.{
  VoidDocumentInput, DocumentState, some, sessions_of_document, find_document, bump_document,
  mark_voided, store_void, ok, SessionUpdate, pure, ℕ, revoke_listed,
}
use bug_free_fiesta.Program.Done.{append_event-done, gets-done, on_documents-done, on_sessions_only}
use bug_free_fiesta.Store.Documents.{
  DocumentKey, bump_document, mark_voided, find_document, has_document_key, bump_current,
}

-- No text is there twice.
abbrev pub Distinct : List String → Type 0
Distinct [] = Unit {0}
Distinct (x ∷ xs) = All (λ y. str_eq x y ≡ false) xs × Distinct xs

abbrev pub session_ids : List SigningSession → List String
session_ids = map (λ (row : SigningSession). row.id)

abbrev pub in_envelope : String → String → SigningSession → Bool
in_envelope organization_id document_id row =
    str_eq row.organization_id organization_id && str_eq row.document_id document_id

-- One of the rows to come is open, and has the id.
abbrev awaits : SigningSession → List SigningSession → Bool
awaits row rest = any (λ l. is_open_status l.status && str_eq l.id row.id) rest

revoked_row :
    (now : ℕ) (current next : SigningSession)
    → act (SessionUpdate.revokes now) current ≡ ok next
    → (next.id ≡ current.id) × (is_open_status next.status ≡ false)
unfolding act revoke_row
revoked_row now current next h = (ground arith, ground arith)

module _ (organization_id document_id : String) where
  -- Every session of the document is closed.
  abbrev pub Closed : List SigningSession → Type 0
  Closed = All (λ row.
      in_envelope organization_id document_id row ≡ true → is_open_status row.status ≡ false)

  -- Every open session of the document is still to be revoked.
  abbrev Awaiting : List SigningSession → List SigningSession → Type 0
  Awaiting rest = All (λ row.
      in_envelope organization_id document_id row ≡ true
      → is_open_status row.status ≡ true
      → awaits row rest ≡ true)

  Awaiting-Closed : (rows : List SigningSession) → Awaiting [] rows → Closed rows
  Awaiting-Closed [] h = tt
  Awaiting-Closed (row ∷ rows) h = (
    λ mine. elim (Bool-cases (is_open_status row.status)) [
      | inl opened ↦ absurd (ground (arith, h.0 mine opened))
      | inr closed ↦ closed
    ],
    Awaiting-Closed rows h.1,
  )

  -- A session that is closed already is passed over.
  Awaiting-skip :
      (session : SigningSession) (rest rows : List SigningSession)
      → is_open_status session.status ≡ false
      → Awaiting (session ∷ rest) rows
      → Awaiting rest rows
  Awaiting-skip session rest [] closed h = tt
  Awaiting-skip session rest (row ∷ rows) closed h =
      (λ mine opened. ground (arith, h.0 mine opened), Awaiting-skip session rest rows closed h.1)

  Awaiting-more :
      (session : SigningSession) (rest rows : List SigningSession)
      → Awaiting rest rows
      → Awaiting (session ∷ rest) rows
  Awaiting-more session rest [] h = tt
  Awaiting-more session rest (row ∷ rows) h =
      (λ mine opened. ground (arith, h.0 mine opened), Awaiting-more session rest rows h.1)

  -- The sessions of the document, as they are listed.
  Awaiting-listed :
      (rows : List SigningSession)
      → Awaiting (keep_if (in_envelope organization_id document_id) rows) rows
  Awaiting-listed [] = tt
  Awaiting-listed (row ∷ rows) =
      let mine = in_envelope organization_id document_id in
      let rest = Awaiting-listed rows in
      elim (Bool-cases (mine row)) [
        | inl own ↦
            let kept : keep_if mine (row ∷ rows) ≡ row ∷ keep_if mine rows = ground arith in
            subst (λ listed. Awaiting listed (row ∷ rows)) (sym kept)
              (
                (λ o opened. ground (arith, eq_refl row.id)),
                Awaiting-more row (keep_if mine rows) rows rest,
              )
        | inr other ↦
            let kept : keep_if mine (row ∷ rows) ≡ keep_if mine rows = ground arith in
            subst (λ listed. Awaiting listed (row ∷ rows)) (sym kept)
              ((λ o opened. absurd (ground arith)), rest)
      ]

  -- The rows behind the one that is revoked have other ids.
  Awaiting-others :
      (session : SigningSession) (rest rows : List SigningSession)
      → All (λ y. str_eq session.id y ≡ false) (session_ids rows)
      → Awaiting (session ∷ rest) rows
      → Awaiting rest rows
  Awaiting-others session rest [] other h = tt
  Awaiting-others session rest (row ∷ rows) other h = (
    λ mine opened. ground (arith, other.0, h.0 mine opened),
    Awaiting-others session rest rows other.1 h.1,
  )

  Awaiting-revoked :
      (session next : SigningSession) (rest rows : List SigningSession)
      → Distinct (session_ids rows)
      → is_open_status next.status ≡ false
      → Awaiting (session ∷ rest) rows
      → Awaiting rest (
          replace_row
            (has_session_key
              (record { organization_id = organization_id; session_id = session.id }))
            next
            rows)
  unfolding replace_row has_session_key
  Awaiting-revoked session next rest [] distinct closed h = tt
  Awaiting-revoked session next rest (row ∷ rows) distinct closed h =
      elim (Bool-cases (
        has_session_key (record { organization_id = organization_id; session_id = session.id })
          row)) [
            | inl hit ↦
                (let same : row.id ≡ session.id = ground (arith, eq_iff row.id session.id) in
                  rw hit (
                    (λ mine opened. absurd (ground arith)),
                    Awaiting-others session rest rows
                        (subst (λ id. All (λ y. str_eq id y ≡ false) (session_ids rows)) same
                          distinct.0)
                        h.1,
                  ))
            | inr miss ↦ rw miss (
              (λ mine opened.
                  ground
                    (arith, h.0 mine opened, eq_iff session.id row.id, eq_iff row.id session.id)),
              Awaiting-revoked session next rest rows distinct.1 closed h.1,
            )
          ]

  write_revokes :
      (session row : SigningSession) (rest : List SigningSession) (now : ℕ) (s u : Repositories)
      → Distinct (session_ids s.sessions)
      → Awaiting (session ∷ rest) s.sessions
      → write_session
          (record { organization_id = organization_id; session_id = session.id })
          (SessionUpdate.revokes now)
          s
        ≡ done row u
      → Distinct (session_ids u.sessions) × Awaiting rest u.sessions
  unfolding write_session update_session
  write_revokes session row rest now s u distinct waits h =
      let (next, rows, updated, kept) = on_sessions_only (update_session _ _) s u row h in
      let (current, found, stepped, stored) = update_row-ok _ _ _ s.sessions updated in
      let (same, closed) = revoked_row now current next stepped in
      let p =
        has_session_key (record { organization_id = organization_id; session_id = session.id }) in
      subst (λ (r : List SigningSession). Distinct (session_ids r) × Awaiting rest r)
        (sym stored ∙ ap (λ (v : Repositories). v.sessions) (sym kept))
        (
          subst Distinct (sym (map-replace_row _ p next current s.sessions found same)) distinct,
          Awaiting-revoked session next rest s.sessions distinct closed waits,
        )

  revoke_listed-Closed :
      (now : ℕ) (sessions : List SigningSession) (s t : Repositories) (ids : List String)
      → Distinct (session_ids s.sessions)
      → Awaiting sessions s.sessions
      → revoke_listed organization_id now sessions s ≡ done ids t
      → Closed t.sessions
  unfolding revoke_listed pure
  revoke_listed-Closed now [] s t ids distinct waits h =
      let same : s ≡ t = ground arith in
      subst (λ (v : Repositories). Closed v.sessions) same (Awaiting-Closed s.sessions waits)
  revoke_listed-Closed now (session ∷ rest) s t ids distinct waits h =
      elim (Bool-cases (is_open_status session.status)) [
        | inl opened ↦
            let (row, u, writes, h1) = >>=-eq-done _ _ s (rw opened at h) in
            let (others, v, revokes, h2) = >>=-eq-done _ _ u h1 in
            let (distinct', waits') =
              write_revokes session row rest now s u distinct waits writes in
            let closed = revoke_listed-Closed now rest u v others distinct' waits' revokes in
            let same : v ≡ t = ground arith in
            subst (λ (w : Repositories). Closed w.sessions) same closed
        | inr closed ↦
            revoke_listed-Closed now rest s t ids distinct
              (Awaiting-skip session rest s.sessions closed waits) (rw closed at h)
      ]

  revoke_listed-done :
      (now : ℕ) (sessions : List SigningSession) (s t : Repositories) (ids : List String)
      → revoke_listed organization_id now sessions s ≡ done ids t
      → (rows : List SigningSession) × (t ≡ record s { sessions = rows })
  unfolding revoke_listed pure write_session
  revoke_listed-done now [] s t ids h = (s.sessions, ground arith)
  revoke_listed-done now (session ∷ rest) s t ids h =
      elim (Bool-cases (is_open_status session.status)) [
        | inl opened ↦
            let (row, u, writes, h1) = >>=-eq-done _ _ s (rw opened at h) in
            let (others, v, revokes, h2) = >>=-eq-done _ _ u h1 in
            let (next, rows, updated, kept) = on_sessions_only _ s u row writes in
            let (rows', kept') = revoke_listed-done now rest u v others revokes in
            let same : v ≡ t = ground arith in
            (
              rows',
              sym same ∙ (kept' ∙ ap (λ (w : Repositories). record w { sessions = rows' }) kept),
            )
        | inr closed ↦ revoke_listed-done now rest s t ids (rw closed at h)
      ]

document_voided_step :
    (key : DocumentKey) (version : ℕ) (current next : Document)
    → bump_current version mark_voided current ≡ ok next
    → has_document_key key current ≡ true
    → (next.state ≡ DocumentState.voided) × (has_document_key key next ≡ true)
unfolding bump_current mark_voided has_document_key
document_voided_step key version current next h held = (ground arith, ground arith)

-- The document is voided, and none of its sessions can be used.
pub record HasVoided (organization_id document_id : String) (t : Repositories) : Type 0 where
  pub document : Document
  pub document_found :
      find_document
        (record { organization_id = organization_id; document_id = document_id })
        t.documents
      ≡ some document
  pub document_state : document.state ≡ DocumentState.voided
  pub closed : Closed organization_id document_id t.sessions

pub store_void-HasVoided :
    (rt : Runtime) (input : VoidDocumentInput) (organization_id : String)
    (document voided : Document) (now : ℕ) (s t : Repositories)
    → Distinct (session_ids s.sessions)
    → store_void rt input organization_id document now s ≡ done voided t
    → HasVoided organization_id document.id t
unfolding store_void bump_document find_document pure sessions_of_document
store_void-HasVoided rt input organization_id document voided now s t distinct h =
    let key : DocumentKey = record {
      organization_id = organization_id;
      document_id = document.id;
    } in
    let (next, rows, moved, h1) = on_documents-done _ _ _ h in
    let (current, found, stepped, stored) = update_row-ok _ _ _ s.documents moved in
    let (state, held) =
      document_voided_step key document.version current next stepped
        (find_row-holds _ s.documents current found) in
    let s1 : Repositories = record s { documents = rows } in
    let listed = keep_if (in_envelope organization_id document.id) s.sessions in
    let (revoked, u, revokes, h2) = >>=-eq-done _ _ _ (gets-done _ _ h1) in
    let closed =
      revoke_listed-Closed organization_id document.id now listed s1 u revoked distinct
        (Awaiting-listed organization_id document.id s.sessions) revokes in
    let (sessions, moved_sessions) =
      revoke_listed-done organization_id document.id now listed s1 u revoked revokes in
    let (event, v, appended, h3) = >>=-eq-done _ _ u h2 in
    let (events, grown) = append_event-done rt _ _ _ _ _ _ _ u v event appended in
    let same : v ≡ t = ground arith in
    let documents_kept : rows ≡ t.documents = sym (
      ap (λ (w : Repositories). w.documents)
        (sym same
          ∙ (grown
              ∙ ap
                  (λ (w : Repositories). record w {
                    ids_drawn = w.ids_drawn + 1;
                    audit_events = events;
                  })
                  moved_sessions))) in
    record {
      document = next;
      document_found =
          subst (λ r. find_row (has_document_key key) r ≡ some next) (sym stored ∙ documents_kept)
            (find_row-replace_row _ next current s.documents found held);
      document_state = state;
      closed =
          subst (Closed organization_id document.id)
            (sym (ap (λ (w : Repositories). w.sessions) (sym same ∙ grown))) closed;
    }
