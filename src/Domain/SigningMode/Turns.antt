-- ===== src/Domain/SigningMode/Turns.antt =====
-- Whose turn it is: what `canSignerActNow` promises of a roster.
use mathlib.Core.List.{Memᴰ}
use bug_free_fiesta.Domain.Statuses.{ordered, pending}
use bug_free_fiesta.Domain.SigningMode.{
  suc, true, ltb, none, ◌∷◌, some, is_pending, keep_if, ℕ, Option, List, Signer, lowest, orders_of,
  can_signer_act_now,
}
use bug_free_fiesta.Prelude.{
  subst, ◌↔◌, refl, arith, Option-cases, inl, [], inr, Bool-cases, ◌≤◌, All, ◌≡◌,
}

-- The least routing order of the signers that are still pending.
current_order : List Signer → Option ℕ
unfolding lowest
current_order signers = lowest (orders_of (keep_if is_pending signers))

abbrev pub IsPending : Signer → Type 0
IsPending signer = signer.status ≡ pending

abbrev AllFrom : ℕ → List Signer → Type 0
AllFrom m = All (λ s. IsPending s → m ≤ s.routing_order)

AllFrom-mono : (m n : ℕ) (signers : List Signer) → m ≤ n → AllFrom n signers → AllFrom m signers
AllFrom-mono m n [] h a = tt
AllFrom-mono m n (s ∷ signers) h (p, a) = ((λ q. omega (arith, p q)), AllFrom-mono m n signers h a)

none-AllFrom : (m : ℕ) (signers : List Signer) → current_order signers ≡ none → AllFrom m signers
unfolding current_order
none-AllFrom m [] h = tt
none-AllFrom m (s ∷ signers) h = ground (arith, none-AllFrom m signers)

some-AllFrom : (m : ℕ) (signers : List Signer) → current_order signers ≡ some m → AllFrom m signers
unfolding current_order
some-AllFrom m [] h = tt
some-AllFrom m (s ∷ signers) h = elim (Option-cases (current_order signers)) [
  | inl e ↦ let later = none-AllFrom m signers e in ground (arith, some-AllFrom m signers)
  | inr (n, e) ↦
      let later = some-AllFrom n signers e in
      ground (arith, AllFrom-mono m n signers, some-AllFrom m signers)
]

current_order_attained :
    (signers : List Signer) (m : ℕ)
    → current_order signers ≡ some m
    → (s : Signer) × Memᴰ s signers × IsPending s × (s.routing_order ≡ m)
unfolding current_order
current_order_attained [] m h = cc
current_order_attained (s ∷ signers) m h = elim (Bool-cases (is_pending s)) [
  | inr skipped ↦
      let (t, listed, waits, same) = current_order_attained signers m (ground arith) in
      (t, Memᴰ.tail listed, waits, same)
  | inl counted ↦ elim (Option-cases (current_order signers)) [
    | inl e ↦ (s, Memᴰ.head refl, ground arith, ground arith)
    | inr (n, e) ↦ elim (Bool-cases (ltb n s.routing_order)) [
      | inl less ↦
          let (t, listed, waits, same) = current_order_attained signers n e in
          (t, Memᴰ.tail listed, waits, ground arith)
      | inr more ↦ (s, Memᴰ.head refl, ground arith, ground arith)
    ]
  ]
]

AllFrom-at :
    (m : ℕ) (signers : List Signer) (s : Signer)
    → AllFrom m signers
    → Memᴰ s signers
    → IsPending s
    → m ≤ s.routing_order
AllFrom-at m [] s a listed waits = elim listed [ ]
AllFrom-at m (t ∷ signers) s (p, a) (Memᴰ.head e) waits = rw e (p (rw (← e) waits))
AllFrom-at m (t ∷ signers) s (p, a) (Memᴰ.tail listed) waits = AllFrom-at m signers s a listed waits

-- In ordered mode a signer of the roster may act exactly when it is pending and no pending signer
-- comes before it.
pub can_signer_act_now_iff :
    (actor : Signer) (signers : List Signer)
    → Memᴰ actor signers
    → (can_signer_act_now ordered actor signers ≡ true)
      ↔ (IsPending actor × AllFrom actor.routing_order signers)
unfolding can_signer_act_now current_order
can_signer_act_now_iff actor signers listed = elim (Option-cases (current_order signers)) [
  | inl e ↦ (
    λ h. absurd (ground arith),
    λ h.
        let late = none-AllFrom (suc actor.routing_order) signers e in
        absurd (omega (arith, AllFrom-at _ signers actor late listed h.0)),
  )
  | inr (m, e) ↦ (
    λ h.
        let same : m ≡ actor.routing_order = ground arith in
        (ground arith, subst (λ k. AllFrom k signers) same (some-AllFrom m signers e)),
    λ h.
        let (s, held, waits, same) = current_order_attained signers m e in
        let first = AllFrom-at actor.routing_order signers s h.1 held waits in
        let least = AllFrom-at m signers actor (some-AllFrom m signers e) listed h.0 in
        let meet : m ≡ actor.routing_order = omega arith in ground arith,
  )
]

-- Somebody can always go on: while a signer of an ordered roster is pending, one of them may act.
pub somebody_can_act :
    (signer : Signer) (signers : List Signer)
    → Memᴰ signer signers
    → IsPending signer
    → (actor : Signer) × Memᴰ actor signers × (can_signer_act_now ordered actor signers ≡ true)
unfolding can_signer_act_now current_order
somebody_can_act signer signers listed waits = elim (Option-cases (current_order signers)) [
  | inl e ↦
      let late = none-AllFrom (suc signer.routing_order) signers e in
      absurd (omega (arith, AllFrom-at _ signers signer late listed waits))
  | inr (m, e) ↦
      let (s, held, waits, same) = current_order_attained signers m e in (s, held, ground arith)
]
