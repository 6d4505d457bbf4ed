-- ===== src/Domain.antt =====
-- packages/domain: the entities, the errors and the pure rules of the signing workflow.
pub mod Errors
pub mod Text
pub mod Json
pub mod Statuses
pub mod Entities
pub mod Lifecycle
pub mod SigningMode
pub mod Actor
pub mod Payload
pub mod Canonical
pub mod Doubles
pub mod FieldGeometry
pub mod ObjectKeys
