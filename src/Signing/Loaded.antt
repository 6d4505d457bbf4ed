-- ===== src/Signing/Loaded.antt =====
-- What a session that `loadSignerSession` hands out has been checked for.
use bug_free_fiesta.Program.{
  Handler, on_sessions, write_session, throw, pure, ◌>>=◌, Repositories, Runtime, done,
}
use bug_free_fiesta.Signing.Checks.{
  check_status, check_exchanged, actor_of_session, check_account, check_document,
  LoadedSignerSession, LoadSignerSessionInput, EnvelopePolicy,
}
use bug_free_fiesta.Signing.Session.{load_signer_session, check_expiry, load_parties}
use bug_free_fiesta.Prelude.{
  inr, inl, ℕ, Option-cases, String, ◌<◌, ◌+◌, not, is_none, eq_iff, arith, some, ◌⊎◌, true, ◌≡◌,
}
use bug_free_fiesta.Domain.Lifecycle.{is_available_for_signing, is_open_status}
use bug_free_fiesta.Domain.Entities.{Signer, Document, SigningSession}
use bug_free_fiesta.Domain.Errors.{ok}
use bug_free_fiesta.Domain.Statuses.{SigningSessionStatus}
use bug_free_fiesta.Store.Documents.{find_document}
use bug_free_fiesta.Store.Signers.{find_signer}
use bug_free_fiesta.Program.Done.{now_utc-done, lift-done, gets-done, require-done}
use bug_free_fiesta.Store.Sessions.{find_by_token_hash}

-- Everything that the handlers rely on, of a session loaded from `s`.
pub record IsChecked (rt : Runtime) (auth : EnvelopePolicy) (input : LoadSignerSessionInput)
    (s : Repositories) (loaded : LoadedSignerSession) : Type 0 where
  pub stored : find_by_token_hash (rt.hash_token input.raw_token) s.sessions ≡ some loaded.session
  pub token : loaded.session.token_hash ≡ rt.hash_token input.raw_token
  pub unexpired : rt.clock_at s.clock_reads < loaded.session.expires_at
  pub live :
      (is_open_status loaded.session.status ≡ true)
      ⊎ ((loaded.session.status ≡ SigningSessionStatus.completed) × (input.allow_completed ≡ true))
  pub exchanged : is_none loaded.session.consumed_at ≡ not input.require_exchanged
  pub document_found :
      find_document
        (record {
          organization_id = loaded.session.organization_id;
          document_id = loaded.session.document_id;
        })
        s.documents
      ≡ some loaded.document
  pub signer_found :
      find_signer
        (record {
          organization_id = loaded.session.organization_id;
          signer_id = loaded.session.signer_id;
        })
        s.signers
      ≡ some loaded.signer
  pub own_signer : loaded.signer.document_id ≡ loaded.document.id
  pub available :
      (loaded.session.status ≡ SigningSessionStatus.completed)
      ⊎ (is_available_for_signing loaded.document ≡ true)
  pub account :
      auth loaded.document loaded.signer ≡ true
      → (user : String) × (input.account_user_id ≡ some user)
        × (loaded.signer.account_user_id ≡ some user)
  pub actor : loaded.actor ≡ actor_of_session loaded.session

module _ (rt : Runtime) (auth : EnvelopePolicy) where
  load_parties-done :
      (input : LoadSignerSessionInput) (found : SigningSession) (s t : Repositories)
      (loaded : LoadedSignerSession)
      → load_parties rt auth input found s ≡ done loaded t
      → (t ≡ s)
        × (loaded.session ≡ found)
        × (loaded.signer.document_id ≡ loaded.document.id)
        × (check_document found loaded.document ≡ ok tt)
        × (check_account auth input loaded.document loaded.signer ≡ ok tt)
        × (find_document
              (record { organization_id = found.organization_id; document_id = found.document_id })
              s.documents
            ≡ some loaded.document)
        × (find_signer
              (record { organization_id = found.organization_id; signer_id = found.signer_id })
              s.signers
            ≡ some loaded.signer)
        × (loaded.actor ≡ actor_of_session found)
  unfolding load_parties pure
  load_parties-done input found s t loaded h =
      let (document, has_document, h1) = require-done _ _ _ (gets-done _ _ h) in
      let (_, document_checked, h2) = lift-done _ _ h1 in
      let (signer, has_signer, h3) = require-done _ _ _ (gets-done _ _ h2) in
      let (_, own, h4) = lift-done _ _ h3 in
      let (_, account_checked, h5) = lift-done _ _ h4 in
      let own_signer : signer.document_id ≡ document.id =
        ground (arith, eq_iff signer.document_id document.id) in
      ground (arith)

  check_expiry-done {ℓ} :
      {B : Type ℓ} (found : SigningSession) (now : ℕ) (f : Unit {0} → Handler B)
      (s t : Repositories) (b : B)
      → (check_expiry found now >>= f) s ≡ done b t
      → (now < found.expires_at) × (f tt s ≡ done b t)
  unfolding check_expiry ◌>>=◌ throw pure write_session on_sessions
  check_expiry-done found now f s t b h = ground arith

  status_checked :
      (input : LoadSignerSessionInput) (found : SigningSession)
      → check_status input found ≡ ok tt
      → (is_open_status found.status ≡ true)
        ⊎ ((found.status ≡ SigningSessionStatus.completed) × (input.allow_completed ≡ true))
  unfolding check_status
  status_checked input found h = ground arith

  exchange_checked :
      (input : LoadSignerSessionInput) (found : SigningSession)
      → check_exchanged input found ≡ ok tt
      → is_none found.consumed_at ≡ not input.require_exchanged
  unfolding check_exchanged
  exchange_checked input found h = ground arith

  document_checked :
      (found : SigningSession) (document : Document)
      → check_document found document ≡ ok tt
      → (found.status ≡ SigningSessionStatus.completed) ⊎ (is_available_for_signing document ≡ true)
  unfolding check_document
  document_checked found document h = ground arith

  account_checked :
      (input : LoadSignerSessionInput) (document : Document) (signer : Signer)
      → check_account auth input document signer ≡ ok tt
      → auth document signer ≡ true
      → (user : String) × (input.account_user_id ≡ some user) × (signer.account_user_id ≡ some user)
  unfolding check_account
  account_checked input document signer h k = elim (Option-cases input.account_user_id) [
    | inl e ↦ ground arith
    | inr (given, e) ↦ elim (Option-cases signer.account_user_id) [
      | inl e' ↦ ground arith
      | inr (own, e') ↦ (given, e, ground (arith, eq_iff own given))
    ]
  ]

-- A signing link that is let in has a stored session with the hash of its token, not past its end, open
-- (or completed, where the caller allows it), exchanged exactly if the caller asks for that; a document
-- available for signing unless the session is completed; a signer of that document; where the policy
-- asks for an account, the signer's own; and nothing is written.
pub load_signer_session-IsChecked :
    (rt : Runtime) (auth : EnvelopePolicy) (input : LoadSignerSessionInput) (s t : Repositories)
    (loaded : LoadedSignerSession)
    → load_signer_session rt auth input s ≡ done loaded t
    → IsChecked rt auth input s loaded × (t ≡ record s { clock_reads = s.clock_reads + 1 })
unfolding load_signer_session
load_signer_session-IsChecked rt auth input s t loaded h =
    let (found, stored, h1) = require-done _ _ _ (gets-done _ _ h) in
    let (_, same, h2) = lift-done _ _ h1 in
    let (_, status, h3) = lift-done _ _ (now_utc-done rt _ s h2) in
    let (unexpired, h4) = check_expiry-done rt auth found _ _ _ t loaded h3 in
    let (_, exchanged, h5) = lift-done _ _ h4 in
    let (kept, session, own, document, account, has_document, has_signer, actor) =
      load_parties-done rt auth input found _ t loaded h5 in
    let token : found.token_hash ≡ rt.hash_token input.raw_token =
      ground (arith, eq_iff (rt.hash_token input.raw_token) found.token_hash) in
    (
      rw session (record {
        stored = stored;
        token = token;
        unexpired = unexpired;
        live = status_checked rt auth input found status;
        exchanged = exchange_checked rt auth input found exchanged;
        document_found = has_document;
        signer_found = has_signer;
        own_signer = own;
        available = document_checked rt auth found loaded.document document;
        account = account_checked rt auth input loaded.document loaded.signer account;
        actor = actor;
      }),
      kept,
    )
