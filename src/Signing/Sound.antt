-- ===== src/Signing/Sound.antt =====
-- The handlers behind a signing link keep the sessions and the audit log sound, on every path.
use bug_free_fiesta.Program.{Runtime}
use bug_free_fiesta.Program.Keeps.{Keeps-bind, Keeps, keeps_rules}
use bug_free_fiesta.Program.Sound.{
  Sound, Sound-on_documents, Sound-on_signers, Sound-on_consents, Sound-next_id, Sound-now_utc,
  Sound-generate_raw_token, Sound-write_session, Sound-create_session, Sound-append_event,
}
use bug_free_fiesta.Signing.Checks.{LoadedSignerSession, LoadSignerSessionInput, EnvelopePolicy}
use bug_free_fiesta.Prelude.{none, some, [], Option, ◌∷◌, String, ℕ, List}
use bug_free_fiesta.Domain.Entities.{ConsentRecord, Signer, Document, SigningSession, AuditEvent}
use bug_free_fiesta.Signing.Session.{
  ExchangeSigningTokenInput, exchange_signing_token, check_expiry, load_parties,
  load_signer_session,
}
use bug_free_fiesta.Signing.Acts.{
  finish_decline, ConsentDisclosure, RecordSignerConsentInput, decline_loaded, ConsentCatalog,
  SignerRequest, decline_to_sign, record_signer_viewed, record_signer_consent, consent_once,
  revoke_if_open, store_decline, load_acting, store_consent, revoke_open,
}
use bug_free_fiesta.Signing.Links.{
  RotateSigningSessionInput, RevokeSigningSessionInput, revoke_rotated, revoke_signing_session,
  rotate_signing_session, store_rotation,
}
use bug_free_fiesta.Signing.Resolve.{present_if_issued, resolve_signing_session}

module _ (rt : Runtime) (auth : EnvelopePolicy) (log : List AuditEvent) where
  load_parties-Keeps :
      (input : LoadSignerSessionInput) (found : SigningSession)
      → Keeps (Sound rt log) (load_parties rt auth input found)
  unfolding load_parties
  load_parties-Keeps input found = search keeps_rules depth 20

  check_expiry-Keeps :
      (found : SigningSession) (now : ℕ) → Keeps (Sound rt log) (check_expiry found now)
  unfolding check_expiry
  check_expiry-Keeps found now = search (keeps_rules, Sound-write_session) depth 30

  pub load_signer_session-Keeps :
      (input : LoadSignerSessionInput) → Keeps (Sound rt log) (load_signer_session rt auth input)
  unfolding load_signer_session
  load_signer_session-Keeps input =
      search (keeps_rules, load_parties-Keeps, check_expiry-Keeps, Sound-now_utc) depth 30

  pub exchange_signing_token-Keeps :
      (input : ExchangeSigningTokenInput)
      → Keeps (Sound rt log) (exchange_signing_token rt auth input)
  unfolding exchange_signing_token
  exchange_signing_token-Keeps input =
      search
        (
          keeps_rules, load_signer_session-Keeps, Sound-now_utc, Sound-generate_raw_token,
          Sound-write_session, Sound-append_event,
        )
        depth 30

  load_acting-Keeps :
      (raw_token : String) (account_user_id : Option String)
      → Keeps (Sound rt log) (load_acting rt auth raw_token account_user_id)
  unfolding load_acting
  load_acting-Keeps raw_token account_user_id =
      search (keeps_rules, load_signer_session-Keeps) depth 30

  pub record_signer_viewed-Keeps :
      (input : SignerRequest) → Keeps (Sound rt log) (record_signer_viewed rt auth input)
  unfolding record_signer_viewed
  record_signer_viewed-Keeps input =
      search
        (keeps_rules, load_acting-Keeps, Sound-now_utc, Sound-write_session, Sound-append_event)
        depth 30

  store_consent-Keeps :
      (input : RecordSignerConsentInput) (disclosure : ConsentDisclosure)
      (loaded : LoadedSignerSession)
      → Keeps (Sound rt log) (store_consent rt auth input disclosure loaded)
  unfolding store_consent
  store_consent-Keeps input disclosure loaded =
      search (keeps_rules, Sound-now_utc, Sound-next_id, Sound-on_consents, Sound-append_event)
        depth 30

  consent_once-Keeps :
      (input : RecordSignerConsentInput) (disclosure : ConsentDisclosure)
      (loaded : LoadedSignerSession) (existing : Option ConsentRecord)
      → Keeps (Sound rt log) (consent_once rt auth input disclosure loaded existing)
  unfolding consent_once
  consent_once-Keeps input disclosure loaded none = store_consent-Keeps input disclosure loaded
  consent_once-Keeps input disclosure loaded (some existing) = search keeps_rules

  pub record_signer_consent-Keeps :
      (catalog : ConsentCatalog) (input : RecordSignerConsentInput)
      → Keeps (Sound rt log) (record_signer_consent rt auth catalog input)
  unfolding record_signer_consent
  record_signer_consent-Keeps catalog input =
      search (keeps_rules, load_acting-Keeps, consent_once-Keeps) depth 30

  revoke_if_open-Keeps :
      (organization_id : String) (now : ℕ) (session : SigningSession)
      → Keeps (Sound rt log) (revoke_if_open organization_id now session)
  unfolding revoke_if_open
  revoke_if_open-Keeps organization_id now session =
      search (keeps_rules, Sound-write_session) depth 30

  revoke_open-Keeps :
      (organization_id : String) (now : ℕ) (sessions : List SigningSession)
      → Keeps (Sound rt log) (revoke_open organization_id now sessions)
  unfolding revoke_open
  revoke_open-Keeps organization_id now [] = search keeps_rules
  revoke_open-Keeps organization_id now (session ∷ rest) =
      Keeps-bind _ _ (revoke_if_open-Keeps organization_id now session)
        (λ _. revoke_open-Keeps organization_id now rest)

  store_decline-Keeps :
      (request_id : String) (reason : Option String) (loaded : LoadedSignerSession)
      → Keeps (Sound rt log) (store_decline rt auth request_id reason loaded)
  unfolding store_decline finish_decline
  store_decline-Keeps request_id reason loaded =
      search
        (
          keeps_rules, Sound-now_utc, Sound-on_signers, Sound-on_documents, revoke_open-Keeps,
          Sound-append_event,
        )
        depth 30

  pub decline_to_sign-Keeps :
      (reason : Option String) (input : SignerRequest)
      → Keeps (Sound rt log) (decline_to_sign rt auth reason input)
  unfolding decline_to_sign decline_loaded
  decline_to_sign-Keeps reason input =
      search (keeps_rules, load_acting-Keeps, store_decline-Keeps) depth 30

  revoke_rotated-Keeps :
      (input : RotateSigningSessionInput) (organization_id : String) (document : Document)
      (signer : Signer) (now : ℕ) (sessions : List SigningSession)
      → Keeps (Sound rt log) (revoke_rotated rt input organization_id document signer now sessions)
  unfolding revoke_rotated
  revoke_rotated-Keeps input organization_id document signer now [] = search keeps_rules
  revoke_rotated-Keeps input organization_id document signer now (session ∷ rest) =
      Keeps-bind _ _ (Sound-write_session rt log _ _) (λ _.
        Keeps-bind _ _ (Sound-append_event rt log _ _ _ _ _ _ _)
          (λ _. revoke_rotated-Keeps input organization_id document signer now rest))

  store_rotation-Keeps :
      (ttl : ℕ) (input : RotateSigningSessionInput) (organization_id : String) (document : Document)
      (signer : Signer)
      → Keeps (Sound rt log) (store_rotation rt ttl input organization_id document signer)
  unfolding store_rotation
  store_rotation-Keeps ttl input organization_id document signer =
      search
        (
          keeps_rules, Sound-now_utc, Sound-generate_raw_token, Sound-next_id, revoke_rotated-Keeps,
          Sound-create_session, Sound-append_event,
        )
        depth 30

  pub rotate_signing_session-Keeps :
      (ttl : ℕ) (input : RotateSigningSessionInput)
      → Keeps (Sound rt log) (rotate_signing_session rt ttl input)
  unfolding rotate_signing_session
  rotate_signing_session-Keeps ttl input = search (keeps_rules, store_rotation-Keeps) depth 40

  pub revoke_signing_session-Keeps :
      (input : RevokeSigningSessionInput) → Keeps (Sound rt log) (revoke_signing_session rt input)
  unfolding revoke_signing_session
  revoke_signing_session-Keeps input =
      search (keeps_rules, Sound-now_utc, Sound-write_session, Sound-append_event) depth 40

  pub resolve_signing_session-Keeps :
      (raw_token : String) → Keeps (Sound rt log) (resolve_signing_session rt raw_token)
  unfolding resolve_signing_session present_if_issued
  resolve_signing_session-Keeps raw_token =
      search (keeps_rules, check_expiry-Keeps, Sound-now_utc, Sound-write_session) depth 40
