-- ===== src/Examples/Rules.antt =====
-- The rules of the domain on the example rows.
use bug_free_fiesta.Examples.Parties.{lease, tenant, landlord}
use bug_free_fiesta.Domain.Statuses.{DocumentInspectionStatus, DocumentState, SigningMode}
use bug_free_fiesta.Domain.Actor.{
  assert_allowed, RequestActor, MembershipRole, AuthorizationAction, AuthorizationResource,
}
use bug_free_fiesta.Domain.Entities.{Signer}
use bug_free_fiesta.Prelude.{
  ◌≤◌, refl, All, ◌≢◌, inl, ◌⊎◌, ◌↔◌, inr, [], Memᴰ, ◌∷◌, true, none, ◌≡◌, some,
}
use bug_free_fiesta.Domain.Payload.{
  normalize_key, is_forbidden_key, check_elems, assert_approved_value, check_props,
  assert_approved_audit_payload,
}
use bug_free_fiesta.Domain.Lifecycle.{assert_ready_to_send, can_transition_document}
use bug_free_fiesta.Domain.Json.{end, string, prop, Props}
use bug_free_fiesta.Domain.SigningMode.{assert_signer_routing, can_signer_act_now}
use bug_free_fiesta.Domain.Lifecycle.Reachability.{Reach, terminal_absorbs}
use bug_free_fiesta.Domain.Errors.{ok}
use bug_free_fiesta.Domain.SigningMode.Turns.{can_signer_act_now_iff, somebody_can_act, IsPending}
use bug_free_fiesta.Domain.Lifecycle.Tables.{
  assert_ready_to_send_iff, can_transition_document_iff, Edge,
}
use bug_free_fiesta.Domain.Actor.Policy.{assert_allowed_iff, Granted, BelongsTo}
use bug_free_fiesta.Domain.Text.{utf16_length, same_text, has_prefix, has_part}
use bug_free_fiesta.Domain.Payload.Approved.{approved-Clean, CleanProps}
use bug_free_fiesta.Domain.SigningMode.Routing.{assert_signer_routing_iff, FitsMode}

abbrev officer : RequestActor
officer = RequestActor.account_user (record {
  user_id = "user";
  membership_id = "member";
  organization_id = "org";
  role = MembershipRole.member;
})

abbrev own_document : AuthorizationResource
own_document = record { organization_id = "org"; document_id = some "doc"; signer_id = none }

abbrev event_payload : Props
event_payload = prop "sessionId" (string "session") (prop "signerId" (string "tenant") end)

assert_signer_routing_iff_example :
    (assert_signer_routing SigningMode.ordered (landlord ∷ tenant ∷ []) ≡ ok tt)
    ↔ ((landlord ∷ tenant ∷ [] ≢ []) × FitsMode SigningMode.ordered (2 ∷ 1 ∷ []))
assert_signer_routing_iff_example =
    assert_signer_routing_iff SigningMode.ordered (landlord ∷ tenant ∷ [])

can_signer_act_now_iff_example :
    (can_signer_act_now SigningMode.ordered landlord (tenant ∷ landlord ∷ []) ≡ true)
    ↔ (IsPending landlord × All (λ s. IsPending s → 2 ≤ s.routing_order) (tenant ∷ landlord ∷ []))
can_signer_act_now_iff_example =
    can_signer_act_now_iff landlord (tenant ∷ landlord ∷ []) (Memᴰ.tail (Memᴰ.head refl))

somebody_can_act_example :
    (actor : Signer) × Memᴰ actor (tenant ∷ landlord ∷ [])
    × (can_signer_act_now SigningMode.ordered actor (tenant ∷ landlord ∷ []) ≡ true)
somebody_can_act_example =
    somebody_can_act landlord (tenant ∷ landlord ∷ []) (Memᴰ.tail (Memᴰ.head refl)) refl

assert_allowed_iff_example :
    (assert_allowed officer AuthorizationAction.document_void own_document ≡ ok tt)
    ↔ (BelongsTo officer "org" × Granted officer AuthorizationAction.document_void own_document)
assert_allowed_iff_example =
    assert_allowed_iff officer AuthorizationAction.document_void own_document

approved-Clean_example : CleanProps event_payload
unfolding assert_approved_audit_payload check_props assert_approved_value check_elems
    is_forbidden_key normalize_key has_part has_prefix same_text utf16_length
approved-Clean_example = approved-Clean event_payload refl

can_transition_document_iff_example :
    (can_transition_document DocumentState.sent DocumentState.declined ≡ true)
    ↔ Edge DocumentState.sent DocumentState.declined
can_transition_document_iff_example =
    can_transition_document_iff DocumentState.sent DocumentState.declined

assert_ready_to_send_iff_example : (assert_ready_to_send lease ≡ ok tt) ↔ (
    ((lease.state ≡ DocumentState.draft) ⊎ (lease.state ≡ DocumentState.prepared))
    × (lease.current_revision_id ≢ none)
    × (lease.inspection_status ≡ DocumentInspectionStatus.accepted))
assert_ready_to_send_iff_example = assert_ready_to_send_iff lease

terminal_absorbs_example : DocumentState.voided ≡ DocumentState.voided
terminal_absorbs_example =
    terminal_absorbs {avoided = DocumentState.completed} {s = DocumentState.voided}
      {t = DocumentState.voided} (inr (inl refl)) Reach.here
