-- ===== src/Domain/Actor/Policy.antt =====
-- What the membership policy allows, and that it keeps the tenants apart.
use bug_free_fiesta.Domain.Actor.{
  audit_verify, document_download_artifact, document_void, document_send, document_write, some,
  true, document_read, account_user_actions, job_process, false, signing_session_act, action_eq,
  membership_read, none, AuthorizationResource, any, names_another, MembershipRole, String,
  assert_allowed, AuthorizationAction, Option, RequestActor, account_user, signer, worker, system,
  read_only, owner, admin,
}
use bug_free_fiesta.Prelude.{eq_iff, ◌≢◌, arith, ◌⊎◌, ◌↔◌, ◌≡◌}
use bug_free_fiesta.Domain.Errors.{ok}

-- The organization that an actor belongs to; the system belongs to none.
abbrev pub BelongsTo : RequestActor → String → Type 0
BelongsTo (account_user actor) organization_id = actor.organization_id ≡ organization_id
BelongsTo (signer actor) organization_id = actor.organization_id ≡ organization_id
BelongsTo (worker actor) organization_id = actor.organization_id ≡ organization_id
BelongsTo system organization_id = Unit

abbrev pub UserMay : MembershipRole → AuthorizationAction → Type 0
UserMay role action =
    ((action ≡ membership_read) ⊎ (action ≡ document_read))
    ⊎ ((role ≢ read_only) × ((action ≡ document_write) ⊎ (action ≡ document_send)))
    ⊎ (((role ≡ owner) ⊎ (role ≡ admin))
        × ((action ≡ document_void)
            ⊎ (action ≡ document_download_artifact)
            ⊎ (action ≡ audit_verify)))

-- A resource that names an id names this one.
abbrev pub Names : Option String → String → Type 0
Names given id = (given ≡ none) ⊎ (given ≡ some id)

-- What an actor may do, apart from the organization: every member reads, all but read-only members
-- write and send, owners and admins void, download and verify; a signer acts in its own session, and
-- workers and the system process jobs.
abbrev pub Granted : RequestActor → AuthorizationAction → AuthorizationResource → Type 0
Granted (account_user actor) action resource = UserMay actor.role action
Granted (signer actor) action resource =
    (action ≡ signing_session_act)
    × Names resource.document_id actor.document_id
    × Names resource.signer_id actor.signer_id
Granted (worker actor) action resource = action ≡ job_process
Granted system action resource = action ≡ job_process

names_another_iff :
    (given : Option String) (id : String) → (names_another given id ≡ false) ↔ Names given id
names_another_iff none id = ground arith
names_another_iff (some g) id = ground (arith, eq_iff g id)

UserMay-iff :
    (role : MembershipRole) (action : AuthorizationAction)
    → (any (action_eq action) (account_user_actions role) ≡ true) ↔ UserMay role action
UserMay-iff role action = ground arith

-- The policy allows an action exactly when the actor belongs to the resource's organization (the
-- system to none) and the action is granted to it.
pub assert_allowed_iff :
    (actor : RequestActor) (action : AuthorizationAction) (resource : AuthorizationResource)
    → (assert_allowed actor action resource ≡ ok tt)
      ↔ (BelongsTo actor resource.organization_id × Granted actor action resource)
unfolding assert_allowed
assert_allowed_iff (account_user actor) action resource =
    ground
      (arith, eq_iff actor.organization_id resource.organization_id, UserMay-iff actor.role action)
assert_allowed_iff (signer actor) action resource = ground (
  arith,
  eq_iff actor.organization_id resource.organization_id,
  names_another_iff resource.document_id actor.document_id,
  names_another_iff resource.signer_id actor.signer_id,
)
assert_allowed_iff (worker actor) action resource =
    ground (arith, eq_iff actor.organization_id resource.organization_id)
assert_allowed_iff system action resource = ground arith
