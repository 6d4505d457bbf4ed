-- ===== src/Domain/Lifecycle/Reachability.antt =====
-- What a document's history can look like: paths of moves that the table allows.
use bug_free_fiesta.Prelude.{◌≡◌, ◌≢◌, ◌⊎◌, refl, sym, subst, Bool, true, arith}
use bug_free_fiesta.Domain.Statuses.{
  DocumentState, draft, prepared, sent, in_progress, completed, finalized, voided, expired,
  declined,
}
use bug_free_fiesta.Domain.Lifecycle.{can_transition_document}

-- A history from `s` that never enters the state `avoided`.
pub data Reach (avoided s : DocumentState) : DocumentState → Type 0 where
  here : Reach avoided s s
  next :
      {t u : DocumentState}
      → Reach avoided s t
      → can_transition_document t u ≡ true
      → u ≢ avoided
      → Reach avoided s u

abbrev pub IsTerminal : DocumentState → Type 0
IsTerminal s = (s ≡ finalized) ⊎ (s ≡ voided) ⊎ (s ≡ expired) ⊎ (s ≡ declined)

-- The states that a history from `draft` meets before signing is complete.
abbrev is_early : DocumentState → Bool
is_early draft = true
is_early prepared = true
is_early sent = true
is_early in_progress = true
is_early voided = true
is_early expired = true
is_early declined = true
is_early _ = Bool.false

can_transition-is_early :
    (t u : DocumentState)
    → is_early t ≡ true
    → can_transition_document t u ≡ true
    → u ≢ completed
    → is_early u ≡ true
unfolding can_transition_document
can_transition-is_early t u early move avoid = ground arith

Reach-is_early : {t : DocumentState} → Reach completed draft t → is_early t ≡ true
Reach-is_early here = refl
Reach-is_early (next {t} {u} r move avoid) =
    can_transition-is_early t u (Reach-is_early r) move avoid

-- No history of allowed moves takes a draft to `finalized` without passing through `completed`.
pub finalized_needs_completed : ¬ Reach completed draft finalized
finalized_needs_completed r = let h = Reach-is_early r in cc h

can_transition_of_IsTerminal :
    (t u : DocumentState) → IsTerminal t → can_transition_document t u ≢ true
unfolding can_transition_document
can_transition_of_IsTerminal t u h = ground arith

-- A finalized, voided, expired or declined document never moves again, by any history of allowed
-- moves.
pub terminal_absorbs : {avoided s t : DocumentState} → IsTerminal s → Reach avoided s t → t ≡ s
terminal_absorbs h here = refl
terminal_absorbs {s} h (next {t} {u} r move avoid) =
    absurd (can_transition_of_IsTerminal t u (subst IsTerminal (sym (terminal_absorbs h r)) h) move)
