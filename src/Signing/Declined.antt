-- ===== src/Signing/Declined.antt =====
-- What a decline that is answered has done.
use bug_free_fiesta.Program.{
  next_id, on_sessions, on_audit_log, write_session, append_event, pure, ◌>>=◌, Repositories,
  Runtime, Handler, done, left, >>=-eq-done, written,
}
use bug_free_fiesta.Program.Keeps.{Keeps, Keeps-bind, keeps_rules}
use bug_free_fiesta.Domain.Entities.{AuditEvent, Payload, Document, Signer, SigningSession}
use bug_free_fiesta.Domain.Errors.{Result, ok, err}
use bug_free_fiesta.Domain.Statuses.{
  signer_status_eq, SigningMode, AuditEventType, DocumentState, SignerStatus,
}
use bug_free_fiesta.Prelude.{
  ◌∙◌, sym, false, refl, arith, true, ◌+◌, Option, some, subst, [], ◌∷◌, ℕ, String, ◌≡◌, List,
}
use bug_free_fiesta.Signing.Acts.{
  SignerRequest, decline_loaded, load_acting, decline_to_sign, finish_decline, store_decline,
  revoke_if_open, revoke_open,
}
use bug_free_fiesta.Store.Sessions.{update_session, SessionKey}
use bug_free_fiesta.Store.Sessions.Moves.{act, SessionUpdate}
use bug_free_fiesta.Domain.Actor.{RequestActor}
use bug_free_fiesta.Store.Ledger.{append_audit}
use bug_free_fiesta.Store.Signers.{
  signers_of_document, SignerKey, find_signer, has_signer_key, decline_row, update_signer,
}
use bug_free_fiesta.Signing.Checks.{LoadSignerSessionInput, EnvelopePolicy, LoadedSignerSession}
use bug_free_fiesta.Store.Documents.{
  has_document_key, DocumentKey, mark_declined, find_document, bump_current, bump_document,
}
use bug_free_fiesta.Program.Done.{
  gets-done, lift-done, on_documents-done, now_utc-done, on_signers-done,
}
use bug_free_fiesta.Store.Rows.{find_row-replace_row, find_row-holds, update_row-ok}
use bug_free_fiesta.Domain.SigningMode.{is_pending, can_signer_act_now}
use bug_free_fiesta.Signing.Loaded.{load_signer_session-IsChecked, IsChecked}

-- The documents and the signers are those given.
abbrev SameParties : List Document → List Signer → Repositories → Type 0
SameParties documents signers s = (s.documents ≡ documents) × (s.signers ≡ signers)

module _ (documents : List Document) (signers : List Signer) where
  write_session-SameParties :
      (key : SessionKey) (u : SessionUpdate)
      → Keeps (SameParties documents signers) (write_session key u)
  unfolding write_session on_sessions
  write_session-SameParties key u = record {
    at = λ s h. go (update_session key (act u) s.sessions) s h;
  }
    where
      go :
          (r : Result (SigningSession × List SigningSession)) (s : Repositories)
          → SameParties documents signers s
          → SameParties documents signers
              (left (written (λ rows t. record t { sessions = rows }) r s))
      go (ok x) s h = h
      go (err e) s h = h

  append_event-SameParties :
      (rt : Runtime) (actor : RequestActor) (organization_id document_id : String)
      (type : AuditEventType) (occurred_at : ℕ) (payload : Payload) (request_id : String)
      → Keeps
          (SameParties documents signers)
          (append_event rt actor organization_id document_id type occurred_at payload request_id)
  unfolding append_event on_audit_log next_id ◌>>=◌
  append_event-SameParties rt actor organization_id document_id type occurred_at payload
        request_id =
      record { at = λ s h. go (append_audit rt.iso rt.sha256_json _ s.audit_events) _ h }
    where
      go :
          (r : Result (AuditEvent × List AuditEvent)) (s : Repositories)
          → SameParties documents signers s
          → SameParties documents signers
              (left (written (λ rows t. record t { audit_events = rows }) r s))
      go (ok x) s h = h
      go (err e) s h = h

  revoke_open-SameParties :
      (organization_id : String) (now : ℕ) (sessions : List SigningSession)
      → Keeps (SameParties documents signers) (revoke_open organization_id now sessions)
  unfolding revoke_open revoke_if_open
  revoke_open-SameParties organization_id now [] = search keeps_rules
  revoke_open-SameParties organization_id now (session ∷ rest) =
      Keeps-bind _ _ (search (keeps_rules, write_session-SameParties) depth 30)
        (λ _. revoke_open-SameParties organization_id now rest)

document_step :
    (key : DocumentKey) (version : ℕ) (current next : Document)
    → bump_current version mark_declined current ≡ ok next
    → has_document_key key current ≡ true
    → (next.state ≡ DocumentState.declined)
      × (next.version ≡ version + 1)
      × (has_document_key key next ≡ true)
unfolding bump_current mark_declined has_document_key
document_step key version current next h held = ground arith

document_declined :
    (key : DocumentKey) (version : ℕ) (rows rows' : List Document) (next : Document)
    → bump_document key version mark_declined rows ≡ ok (next, rows')
    → (next.state ≡ DocumentState.declined)
      × (next.version ≡ version + 1)
      × (find_document key rows' ≡ some next)
unfolding bump_document find_document
document_declined key version rows rows' next h =
    let (current, found, stepped, written) = update_row-ok (has_document_key key) _ _ rows h in
    let (state, bumped, held) =
      document_step key version current next stepped (find_row-holds _ rows current found) in
    (state, bumped, rw written (find_row-replace_row _ next current rows found held))

signer_step :
    (key : SignerKey) (version now : ℕ) (current next : Signer)
    → decline_row version now current ≡ ok next
    → has_signer_key key current ≡ true
    → (next.status ≡ SignerStatus.declined)
      × (next.declined_at ≡ some now)
      × (has_signer_key key next ≡ true)
unfolding decline_row has_signer_key
signer_step key version now current next h held = ground arith

signer_declined_lem :
    (key : SignerKey) (version now : ℕ) (rows rows' : List Signer) (next : Signer)
    → update_signer key (decline_row version now) rows ≡ ok (next, rows')
    → (next.status ≡ SignerStatus.declined)
      × (next.declined_at ≡ some now)
      × (find_signer key rows' ≡ some next)
unfolding update_signer find_signer
signer_declined_lem key version now rows rows' next h =
    let (current, found, stepped, written) = update_row-ok (has_signer_key key) _ _ rows h in
    let (status, at, held) =
      signer_step key version now current next stepped (find_row-holds _ rows current found) in
    (status, at, rw written (find_row-replace_row _ next current rows found held))

left_done :
    (documents : List Document) (signers : List Signer) (m : Handler (Unit {0}))
    (s t : Repositories)
    → m s ≡ done tt t
    → SameParties documents signers s
    → Keeps (SameParties documents signers) m
    → SameParties documents signers t
left_done documents signers m s t e h k =
    subst (λ o. SameParties documents signers (left o)) e (k.at s h)

finish_decline-SameParties :
    (rt : Runtime) (auth : EnvelopePolicy) (request_id : String) (reason : Option String)
    (loaded : LoadedSignerSession) (now : ℕ) (documents : List Document) (signers : List Signer)
    → Keeps (SameParties documents signers) (finish_decline rt auth request_id reason loaded now)
unfolding finish_decline
finish_decline-SameParties rt auth request_id reason loaded now documents signers =
    search (keeps_rules, revoke_open-SameParties, append_event-SameParties) depth 30

-- The document and the signer of a session, as they are stored, have declined.
pub record HasDeclined (loaded : LoadedSignerSession) (t : Repositories) : Type 0 where
  pub document : Document
  pub document_found :
      find_document
        (record {
          organization_id = loaded.actor.organization_id;
          document_id = loaded.document.id;
        })
        t.documents
      ≡ some document
  pub document_state : document.state ≡ DocumentState.declined
  pub document_version : document.version ≡ loaded.document.version + 1
  pub signer : Signer
  pub signer_found :
      find_signer
        (record { organization_id = loaded.actor.organization_id; signer_id = loaded.signer.id })
        t.signers
      ≡ some signer
  pub signer_status : signer.status ≡ SignerStatus.declined

store_decline-HasDeclined :
    (rt : Runtime) (auth : EnvelopePolicy) (request_id : String) (reason : Option String)
    (loaded : LoadedSignerSession) (s t : Repositories)
    → store_decline rt auth request_id reason loaded s ≡ done tt t
    → HasDeclined loaded t
unfolding store_decline
store_decline-HasDeclined rt auth request_id reason loaded s t h =
    let (signer, signers, stepped, h1) = on_signers-done _ _ _ (now_utc-done rt _ s h) in
    let (document, documents, moved, h2) = on_documents-done _ _ _ h1 in
    let (status, at, signer_found) = signer_declined_lem _ _ _ _ signers signer stepped in
    let (state, version, document_found) = document_declined _ _ _ documents document moved in
    let (same_documents, same_signers) =
      left_done documents signers _ _ t h2 (refl, refl)
        (finish_decline-SameParties rt auth request_id reason loaded _ documents signers) in
    record {
      document = document;
      document_found =
          subst
            (λ rows.
              find_document
                (record {
                  organization_id = loaded.actor.organization_id;
                  document_id = loaded.document.id;
                })
                rows
              ≡ some document)
            (sym same_documents) document_found;
      document_state = state;
      document_version = version;
      signer = signer;
      signer_found =
          subst
            (λ rows.
              find_signer
                (record {
                  organization_id = loaded.actor.organization_id;
                  signer_id = loaded.signer.id;
                })
                rows
              ≡ some signer)
            (sym same_signers) signer_found;
      signer_status = status;
    }

abbrev pub acting_input : String → Option String → LoadSignerSessionInput
acting_input raw_token account_user_id = record {
  raw_token = raw_token;
  require_exchanged = true;
  allow_completed = false;
  account_user_id = account_user_id;
}

load_acting-IsChecked :
    (rt : Runtime) (auth : EnvelopePolicy) (raw_token : String) (account_user_id : Option String)
    (s t : Repositories) (loaded : LoadedSignerSession)
    → load_acting rt auth raw_token account_user_id s ≡ done loaded t
    → IsChecked rt auth (acting_input raw_token account_user_id) s loaded
      × (t ≡ record s { clock_reads = s.clock_reads + 1 })
unfolding load_acting pure
load_acting-IsChecked rt auth raw_token account_user_id s t loaded h =
    let (given, u, loads, h1) = >>=-eq-done _ _ s h in
    let (_, allowed, h2) = lift-done _ _ h1 in
    let same : given ≡ loaded = ground arith in
    let left_same : u ≡ t = ground arith in
    let (checked, kept) = load_signer_session-IsChecked rt auth _ s u given loads in
    (subst (IsChecked rt auth _ s) same checked, sym left_same ∙ kept)

-- Only a pending signer is in turn, so the answer for one that has declined is never given.
in_turn_pending :
    (mode : SigningMode) (signer : Signer) (roster : List Signer)
    → can_signer_act_now mode signer roster ≡ true
    → is_pending signer ≡ true
unfolding can_signer_act_now
in_turn_pending mode signer roster h = ground arith

-- A decline that is answered was asked by a checked, exchanged link whose signer was pending and in
-- turn in the roster, and leaves the document and the signer declined, the document one version on.
pub decline_to_sign-HasDeclined :
    (rt : Runtime) (auth : EnvelopePolicy) (reason : Option String) (input : SignerRequest)
    (s t : Repositories)
    → decline_to_sign rt auth reason input s ≡ done tt t
    → (loaded : LoadedSignerSession) × IsChecked rt auth
        (acting_input input.raw_token input.account_user_id)
        s
        loaded
      × (can_signer_act_now loaded.document.signing_mode loaded.signer
            (signers_of_document loaded.actor.organization_id loaded.document.id s.signers)
          ≡ true)
      × (is_pending loaded.signer ≡ true)
      × HasDeclined loaded t
unfolding decline_to_sign decline_loaded
decline_to_sign-HasDeclined rt auth reason input s t h =
    let (loaded, u, loads, h1) = >>=-eq-done _ _ s h in
    let (checked, kept) = load_acting-IsChecked rt auth _ _ s u loaded loads in
    let (_, turn, h2) = lift-done _ _ (gets-done _ _ h1) in
    let roster = signers_of_document loaded.actor.organization_id loaded.document.id u.signers in
    let in_turn : can_signer_act_now loaded.document.signing_mode loaded.signer roster ≡ true =
      ground arith in
    let waits = in_turn_pending loaded.document.signing_mode loaded.signer roster in_turn in
    let fresh : signer_status_eq loaded.signer.status SignerStatus.declined ≡ false =
      ground arith in
    let (_, _, h3) = lift-done _ _ (rw fresh at h2) in
    let (_, _, h4) = lift-done _ _ h3 in
    (
      loaded,
      checked,
      subst
          (λ (v : Repositories).
            can_signer_act_now loaded.document.signing_mode loaded.signer
              (signers_of_document loaded.actor.organization_id loaded.document.id v.signers)
            ≡ true)
          kept in_turn,
      waits,
      store_decline-HasDeclined rt auth input.request_id reason loaded u t h4,
    )
