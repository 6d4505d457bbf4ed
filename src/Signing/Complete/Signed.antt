-- ===== src/Signing/Complete/Signed.antt =====
-- What a completed signature leaves.
use bug_free_fiesta.Program.{>>=-eq-done, write_session, Runtime, done, Repositories}
use bug_free_fiesta.Prelude.{
  refl, str_eq, ◌⊎◌, eq_iff, All, ◌↔◌, ◌+◌, ◌∙◌, false, inr, inl, [], Bool-cases, ◌∷◌, subst, sym,
  ap, arith, Option, ℕ, some, true, List, Bool, String, ◌≡◌,
}
use bug_free_fiesta.Signing.Complete.{
  SessionUpdate, signer_status_eq, document_state_eq, with_signed, all_required_signed, Ink,
  SignerStatus, ok, CompleteSigningResult, DocumentState, CompleteSigningInput, mark_completed,
  complete_fields, move_document, store_completion,
}
use bug_free_fiesta.Store.Signers.{SignerKey, find_signer, has_signer_key, sign_row, update_signer}
use bug_free_fiesta.Signing.Checks.{LoadedSignerSession}
use bug_free_fiesta.Store.Documents.{
  mark_completed, has_document_key, DocumentKey, find_document, bump_document, bump_current,
}
use bug_free_fiesta.Domain.Entities.{
  SigningSession, ConsentRecord, SignatureField, Signer, Document,
}
use bug_free_fiesta.Program.Done.{
  on_outbox_only, next_id-done, append_event-done, on_sessions_only, on_signers-done,
  on_fields-done, pure_only, on_documents-done,
}
use bug_free_fiesta.Store.Rows.{find_row-replace_row, find_row-holds, update_row-ok}
use bug_free_fiesta.Store.Sessions.{
  has_session_key, complete_row, SessionKey, update_session, find_session,
}
use bug_free_fiesta.Store.Sessions.Moves.{act}
use bug_free_fiesta.Domain.Statuses.{SigningSessionStatus}

-- The signers and the documents are the same.
abbrev Kept : Repositories → Repositories → Type 0
Kept s t = (t.signers ≡ s.signers) × (t.documents ≡ s.documents)

signed_step :
    (key : SignerKey) (version now : ℕ) (current next : Signer)
    → sign_row version now current ≡ ok next
    → has_signer_key key current ≡ true
    → (next.status ≡ SignerStatus.signed) × (has_signer_key key next ≡ true)
unfolding sign_row has_signer_key
signed_step key version now current next h held = (ground arith, ground arith)

completed_step :
    (key : DocumentKey) (version : ℕ) (current next : Document)
    → bump_current version mark_completed current ≡ ok next
    → has_document_key key current ≡ true
    → (next.state ≡ DocumentState.completed) × (has_document_key key next ≡ true)
unfolding bump_current mark_completed has_document_key
completed_step key version current next h held = (ground arith, ground arith)

signer_signed_lem :
    (key : SignerKey) (version now : ℕ) (rows rows' : List Signer) (next : Signer)
    → update_signer key (sign_row version now) rows ≡ ok (next, rows')
    → (next.status ≡ SignerStatus.signed) × (find_signer key rows' ≡ some next)
unfolding update_signer find_signer
signer_signed_lem key version now rows rows' next h =
    let (current, found, stepped, stored) = update_row-ok (has_signer_key key) _ _ rows h in
    let (status, held) =
      signed_step key version now current next stepped (find_row-holds _ rows current found) in
    (status, rw stored (find_row-replace_row _ next current rows found held))

document_completed_lem :
    (key : DocumentKey) (version : ℕ) (rows rows' : List Document) (next : Document)
    → bump_document key version mark_completed rows ≡ ok (next, rows')
    → (next.state ≡ DocumentState.completed) × (find_document key rows' ≡ some next)
unfolding bump_document find_document
document_completed_lem key version rows rows' next h =
    let (current, found, stepped, stored) = update_row-ok (has_document_key key) _ _ rows h in
    let (state, held) =
      completed_step key version current next stepped (find_row-holds _ rows current found) in
    (state, rw stored (find_row-replace_row _ next current rows found held))

abbrev document_key_of : LoadedSignerSession → DocumentKey
document_key_of loaded = record {
  organization_id = loaded.actor.organization_id;
  document_id = loaded.document.id;
}

-- The document is stored as completed.
abbrev pub IsCompleted : LoadedSignerSession → Repositories → Type 0
IsCompleted loaded t =
    (document : Document) × (find_document
        (record {
          organization_id = loaded.actor.organization_id;
          document_id = loaded.document.id;
        })
        t.documents
      ≡ some document)
    × (document.state ≡ DocumentState.completed)

completing_step :
    (key : SessionKey) (now : ℕ) (current next : SigningSession)
    → act (SessionUpdate.completes now) current ≡ ok next
    → has_session_key key current ≡ true
    → (next.status ≡ SigningSessionStatus.completed) × (has_session_key key next ≡ true)
unfolding act complete_row has_session_key
completing_step key now current next h held = (ground arith, ground arith)

session_completed_lem :
    (key : SessionKey) (now : ℕ) (rows rows' : List SigningSession) (next : SigningSession)
    → update_session key (act (SessionUpdate.completes now)) rows ≡ ok (next, rows')
    → (next.status ≡ SigningSessionStatus.completed) × (find_session key rows' ≡ some next)
unfolding update_session find_session
session_completed_lem key now rows rows' next h =
    let (current, found, stepped, stored) = update_row-ok (has_session_key key) _ _ rows h in
    let (status, held) =
      completing_step key now current next stepped (find_row-holds _ rows current found) in
    (status, rw stored (find_row-replace_row _ next current rows found held))

signer_status_iff :
    (status : SignerStatus)
    → (signer_status_eq status SignerStatus.signed ≡ true) ↔ (status ≡ SignerStatus.signed)
signer_status_iff status = ground arith

-- Every signer but the one with the id has signed.
abbrev pub OthersSigned : String → List Signer → Type 0
OthersSigned signer_id = All (λ row. (row.id ≡ signer_id) ⊎ (row.status ≡ SignerStatus.signed))

with_signed_iff :
    (signer_id : String) (roster : List Signer)
    → (all_required_signed (with_signed signer_id roster) ≡ true) ↔ OthersSigned signer_id roster
unfolding all_required_signed with_signed
with_signed_iff signer_id [] = (λ h. tt, λ h. refl)
with_signed_iff signer_id (row ∷ roster) =
    let (there, back) = with_signed_iff signer_id roster in
    let (same, is_same) = eq_iff row.id signer_id in
    let (signed, is_signed) = signer_status_iff row.status in
    elim (Bool-cases (str_eq row.id signer_id)) [
      | inl own ↦ (λ h. (inl (same own), there (ground arith)), λ h. ground (arith, back h.1))
      | inr other ↦ (
        λ h. (inr (signed (ground arith)), there (ground arith)),
        λ h. elim h.0 [
          | inl own ↦ absurd (ground (arith, is_same own))
          | inr done_so ↦ ground (arith, is_signed done_so, back h.1)
        ],
      )
    ]

module _ (rt : Runtime) where
  complete_fields-Kept :
      (organization_id : String) (now : ℕ) (signature initials : Option Ink)
      (fields : List SignatureField) (s t : Repositories)
      → complete_fields rt organization_id now signature initials fields s ≡ done tt t
      → Kept s t
  unfolding complete_fields
  complete_fields-Kept organization_id now signature initials [] s t h =
      let (_, same) = pure_only tt s t tt h in
      (
        ap (λ (w : Repositories). w.signers) (sym same),
        ap (λ (w : Repositories). w.documents) (sym same),
      )
  complete_fields-Kept organization_id now signature initials (field ∷ fields) s t h =
      let (stored, rows, completes, h1) = on_fields-done _ _ _ h in
      complete_fields-Kept organization_id now signature initials fields
        (record s { fields = rows }) t h1

  move_document-only :
      (loaded : LoadedSignerSession) (completed : Bool) (s t : Repositories)
      → move_document rt loaded completed s ≡ done tt t
      → ((rows : List Document) × (t ≡ record s { documents = rows }))
        × (completed ≡ true → IsCompleted loaded t)
  unfolding move_document
  move_document-only loaded true s t h =
      let (next, rows, moved, h1) = on_documents-done _ _ _ h in
      let (_, same) = pure_only tt _ t tt h1 in
      let (state, found) =
        document_completed_lem (document_key_of loaded) _ s.documents rows next moved in
      ((rows, sym same), λ e. subst (IsCompleted loaded) same (next, found, state))
  move_document-only loaded false s t h =
      elim (Bool-cases (document_state_eq loaded.document.state DocumentState.sent)) [
        | inl sent ↦
            let (next, rows, moved, h1) = on_documents-done _ _ _ (rw sent at h) in
            let (_, same) = pure_only tt _ t tt h1 in ((rows, sym same), λ e. cc)
        | inr other ↦
            let (_, same) = pure_only tt s t tt (rw other at h) in
            ((s.documents, sym same), λ e. cc)
      ]

-- The signer is stored as signed and its session as completed; the answer says whether all have signed,
-- and then the document is completed.
pub record HasSigned (loaded : LoadedSignerSession) (roster : List Signer)
    (result : CompleteSigningResult) (t : Repositories) : Type 0 where
  pub signer : Signer
  pub signer_found :
      find_signer
        (record { organization_id = loaded.actor.organization_id; signer_id = loaded.signer.id })
        t.signers
      ≡ some signer
  pub signer_status : signer.status ≡ SignerStatus.signed
  pub session : SigningSession
  pub session_found :
      find_session
        (record { organization_id = loaded.actor.organization_id; session_id = loaded.session.id })
        t.sessions
      ≡ some session
  pub session_status : session.status ≡ SigningSessionStatus.completed
  pub answer : (result.document_id ≡ loaded.document.id) × (result.signer_id ≡ loaded.signer.id)
  pub accepted : (result.accepted ≡ true) ↔ OthersSigned loaded.signer.id roster
  pub completed : result.accepted ≡ true → IsCompleted loaded t

pub store_completion-HasSigned :
    (rt : Runtime) (input : CompleteSigningInput) (loaded : LoadedSignerSession)
    (roster : List Signer) (selected : List SignatureField) (consent : ConsentRecord)
    (signature initials : Option Ink) (source : String) (now : ℕ) (s t : Repositories)
    (result : CompleteSigningResult)
    → store_completion rt input loaded roster selected consent signature initials source now s
      ≡ done result t
    → HasSigned loaded roster result t
unfolding store_completion write_session
store_completion-HasSigned rt input loaded roster selected consent signature initials source now s t
      result h =
    let all_signed = all_required_signed (with_signed loaded.signer.id roster) in
    let (_, s1, completes, h1) = >>=-eq-done _ _ s h in
    let (signer, signers, signs, h2) = on_signers-done _ _ _ h1 in
    let (status, found) = signer_signed_lem _ _ _ _ signers signer signs in
    let (session, s3, closes, h3) = >>=-eq-done _ _ _ h2 in
    let (row, sessions, updated, kept3) = on_sessions_only _ _ s3 session closes in
    let (_, s4, moves, h4) = >>=-eq-done _ _ s3 h3 in
    let (kept4, completed) = move_document-only rt loaded all_signed s3 s4 moves in
    let (event, s5, appended, h5) = >>=-eq-done _ _ s4 h4 in
    let (events, kept5) = append_event-done rt _ _ _ _ _ _ _ s4 s5 event appended in
    let h6 = next_id-done rt _ _ (next_id-done rt _ s5 h5) in
    let (published, s6, publishes, h7) = >>=-eq-done _ _ _ h6 in
    let (rows, kept6) = on_outbox_only _ _ s6 published publishes in
    let (answer, same) = pure_only _ s6 t result h7 in
    let said : all_signed ≡ result.accepted =
      ap (λ (r : CompleteSigningResult). r.accepted) answer in
    let late =
      sym same
      ∙ (kept6
          ∙ ap
              (λ (w : Repositories). record w {
                ids_drawn = w.ids_drawn + 1 + 1;
                outbox_events = rows.0;
                jobs = rows.1;
              })
              kept5) in
    let signers_kept : t.signers ≡ signers =
      ap (λ (w : Repositories). w.signers) late
      ∙ (ap (λ (w : Repositories). w.signers) kept4.1
          ∙ ap (λ (w : Repositories). w.signers) kept3) in
    let (session_status, session_found) = session_completed_lem _ _ _ sessions row updated in
    let sessions_kept : t.sessions ≡ sessions =
      ap (λ (w : Repositories). w.sessions) late
      ∙ (ap (λ (w : Repositories). w.sessions) kept4.1
          ∙ ap (λ (w : Repositories). w.sessions) kept3) in
    let documents_kept : t.documents ≡ s4.documents = ap (λ (w : Repositories). w.documents) late in
    record {
      signer = signer;
      signer_found =
          subst
            (λ rows'.
              find_signer
                (record {
                  organization_id = loaded.actor.organization_id;
                  signer_id = loaded.signer.id;
                })
                rows'
              ≡ some signer)
            (sym signers_kept) found;
      signer_status = status;
      session = row;
      session_found =
          subst
            (λ rows'.
              find_session
                (record {
                  organization_id = loaded.actor.organization_id;
                  session_id = loaded.session.id;
                })
                rows'
              ≡ some row)
            (sym sessions_kept) session_found;
      session_status = session_status;
      answer = (
        sym (ap (λ (r : CompleteSigningResult). r.document_id) answer),
        sym (ap (λ (r : CompleteSigningResult). r.signer_id) answer),
      );
      accepted = (
        λ yes_all. (with_signed_iff loaded.signer.id roster).0 (said ∙ yes_all),
        λ others. sym said ∙ (with_signed_iff loaded.signer.id roster).1 others,
      );
      completed = λ yes_all.
          let (document, document_found, state) = completed (said ∙ yes_all) in
          (
            document,
            subst
                (λ rows'.
                  find_document
                    (record {
                      organization_id = loaded.actor.organization_id;
                      document_id = loaded.document.id;
                    })
                    rows'
                  ≡ some document)
                (sym documents_kept) document_found,
            state,
          );
    }
