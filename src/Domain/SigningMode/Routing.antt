-- ===== src/Domain/SigningMode/Routing.antt =====
-- What `assertSignerRouting` accepts.
use mathlib.Core.List.{
  Mem, Perm, Nodup, Subset, mem-cons, not-mem-nil, Nodup-cons, Nodup-nil, length as unary_length,
}
use mathlib.Core.List.Nodup
use mathlib.Core.List.Perm
use mathlib.Core.List.Subperm
use mathlib.Core.Logic.Or
use mathlib.Core.Nat
use mathlib.Core.List.{mem-cons_self, mem-cons_of_mem, Mem-prop}
use mathlib.Core.Bool.{and-eq-true_iff}
use native.Mathlib.Bridge.{le_prop}
use bug_free_fiesta.Prelude.{
  All, inr, ==_iff, inl, ap, sym, Bool-cases, ◌≤◌, ℕ, zero, suc, ◌+◌, ◌≡◌, refl, ◌↔◌, ◌≢◌, true,
  List, [], ◌∷◌, length, arith,
}
use bug_free_fiesta.Domain.Statuses.{SigningMode, ordered, parallel}
use bug_free_fiesta.Domain.SigningMode.{
  orders_of, ltb, ok, Signer, not, assert_ordered, assert_signer_routing, SigningMode, any, false,
  Bool, includes, set_of, consecutive_from,
}
use bug_free_fiesta.Prelude.{◌==◌}

-- first, first + 1, …, as many as `rounds`
pub count_up : ℕ → ℕ → List ℕ
count_up first zero = []
count_up first (suc rounds) = first ∷ count_up (first + 1) rounds

eq-true_prop : (b : Bool) → IsProp (b ≡ true)
eq-true_prop b = hlevel

includes_iff : (order : ℕ) (xs : List ℕ) → (includes order xs ≡ true) ↔ Mem order xs
unfolding includes
includes_iff order [] = (λ h. cc, λ m. absurd (not-mem-nil m))
includes_iff order (x ∷ xs) =
    let ih = includes_iff order xs in
    (
      λ h. elim (Bool-cases (x == order)) [
        | inl same ↦ mem-cons.1 (Or.inl (sym ((==_iff x order).0 same)))
        | inr other ↦ mem-cons.1 (Or.inr (ih.0 (rw other at h)))
      ],
      λ m.
          Or.elim (eq-true_prop _) (mem-cons.0 m) (λ e. ground arith)
            (λ later. let h = ih.1 later in ground arith),
    )

includes-set_of : (order : ℕ) (xs : List ℕ) → includes order (set_of xs) ≡ includes order xs
unfolding includes set_of
includes-set_of order [] = refl
includes-set_of order (x ∷ xs) = ground (arith, includes-set_of order xs)

includes-false : (order : ℕ) (xs : List ℕ) → ¬ Mem order xs → includes order xs ≡ false
includes-false order xs h = elim (Bool-cases (includes order xs)) [
  | inl e ↦ absurd (h ((includes_iff order xs).0 e))
  | inr e ↦ e
]

length-set_of : (xs : List ℕ) → Nodup xs → length (set_of xs) ≡ length xs
unfolding set_of
length-set_of [] h = refl
length-set_of (x ∷ xs) h =
    let (fresh, rest) = Nodup-cons.0 h in
    rw (includes-false x xs fresh) (ap suc (length-set_of xs rest))

consecutive_iff :
    (xs : List ℕ) (first rounds : ℕ)
    → (consecutive_from xs first rounds ≡ true) ↔ Subset (count_up first rounds) xs
unfolding consecutive_from count_up
consecutive_iff xs first zero = (λ h a m. absurd (not-mem-nil m), λ h. refl)
consecutive_iff xs first (suc rounds) =
    let ih = consecutive_iff xs (first + 1) rounds in
    (
      λ h a m.
          let (here, later) = (and-eq-true_iff _ _).0 h in
          Or.elim Mem-prop (mem-cons.0 m) (λ e. rw e ((includes_iff first xs).0 here))
            (ih.0 later a),
      λ h. (and-eq-true_iff _ _).1 (
        (includes_iff first xs).1 (h first mem-cons_self),
        ih.1 (λ a m. h a (mem-cons_of_mem first m)),
      ),
    )

first-le-count_up : (first rounds a : ℕ) → Mem a (count_up first rounds) → first ≤ a
unfolding count_up
first-le-count_up first zero a m = absurd (not-mem-nil m)
first-le-count_up first (suc rounds) a m =
    Or.elim le_prop (mem-cons.0 m) (λ e. omega arith)
      (λ later. omega (arith, first-le-count_up (first + 1) rounds a later))

count_up-Nodup : (first rounds : ℕ) → Nodup (count_up first rounds)
unfolding count_up
count_up-Nodup first zero = Nodup-nil
count_up-Nodup first (suc rounds) = Nodup-cons.1 (
  (λ m. absurd (omega (arith, first-le-count_up (first + 1) rounds first m))),
  count_up-Nodup (first + 1) rounds,
)

unary_length-count_up :
    (first : ℕ) (xs : List ℕ) → unary_length (count_up first (length xs)) ≡ unary_length xs
unfolding count_up
unary_length-count_up first [] = refl
unary_length-count_up first (x ∷ xs) = ap Nat.suc (unary_length-count_up (first + 1) xs)

perm_of_Subset :
    (first : ℕ) (xs : List ℕ)
    → Subset (count_up first (length xs)) xs
    → Perm (count_up first (length xs)) xs
perm_of_Subset first xs h =
    Subperm.perm_of_length_le (Nodup.subperm (count_up-Nodup first (length xs)) h)
      (Nat.le_of_eq (sym (unary_length-count_up first xs)))

module _ (orders : List ℕ) where
  set_of_Subset : (xs : List ℕ) → Subset xs (set_of orders) ↔ Subset xs orders
  set_of_Subset xs = (
    λ h a m.
        (includes_iff a orders).0 (rw (← includes-set_of a orders) ((includes_iff a _).1 (h a m))),
    λ h a m.
        (includes_iff a _).0 (rw (includes-set_of a orders) ((includes_iff a orders).1 (h a m))),
  )

  assert_ordered_iff : (assert_ordered orders ≡ ok tt) ↔ Perm (count_up 1 (length orders)) orders
  unfolding assert_ordered
  assert_ordered_iff = (
    λ h.
        let present : consecutive_from (set_of orders) 1 (length orders) ≡ true = ground arith in
        perm_of_Subset 1 orders
          ((set_of_Subset _).0 ((consecutive_iff (set_of orders) 1 (length orders)).0 present)),
    λ p.
        let distinct = length-set_of orders (Perm.nodup p (count_up-Nodup 1 (length orders))) in
        let present =
          (consecutive_iff (set_of orders) 1 (length orders)).1
            ((set_of_Subset _).1 (Perm.subset p)) in
        ground arith,
  )

any_below_false :
    (xs : List ℕ) → ((a : ℕ) → Mem a xs → 1 ≤ a) → any (λ order. ltb order 1) xs ≡ false
any_below_false [] h = refl
any_below_false (x ∷ xs) h =
    ground (arith, h x mem-cons_self, any_below_false xs (λ a m. h a (mem-cons_of_mem x m)))

All-one_iff :
    (xs : List ℕ) → (any (λ order. not (order == 1)) xs ≡ false) ↔ All (λ order. order ≡ 1) xs
All-one_iff [] = (λ h. tt, λ h. refl)
All-one_iff (x ∷ xs) = ground (arith, All-one_iff xs)

All-one_above : (xs : List ℕ) → All (λ order. order ≡ 1) xs → any (λ order. ltb order 1) xs ≡ false
All-one_above [] h = refl
All-one_above (x ∷ xs) h = ground (arith, All-one_above xs h.1)

-- Ordered signers hold the turns 1, 2, … up to their number, in some order; parallel signers all
-- hold turn 1.
abbrev pub FitsMode : SigningMode → List ℕ → Type 0
FitsMode ordered orders = Perm (count_up 1 (length orders)) orders
FitsMode parallel orders = All (λ order. order ≡ 1) orders

-- `assertSignerRouting` accepts a list of signers exactly when it is not empty and its routing orders
-- fit the mode: ordered, a permutation of 1, …, n; parallel, all 1.
pub assert_signer_routing_iff :
    (mode : SigningMode) (signers : List Signer)
    → (assert_signer_routing mode signers ≡ ok tt)
      ↔ ((signers ≢ []) × FitsMode mode (orders_of signers))
unfolding assert_signer_routing
assert_signer_routing_iff mode [] = (λ h. cc, λ h. absurd (h.0 refl))
assert_signer_routing_iff ordered (s ∷ signers) = (
  λ h. (λ e. cc, (assert_ordered_iff _).0 (ground arith)),
  λ h.
      let fits = (assert_ordered_iff _).1 h.1 in
      let above =
        any_below_false (orders_of (s ∷ signers))
          (λ a m. first-le-count_up 1 _ a (Perm.subset (Perm.symm h.1) a m)) in
      ground arith,
)
assert_signer_routing_iff parallel (s ∷ signers) =
    let orders = orders_of (s ∷ signers) in
    (
      λ h. (λ e. cc, (All-one_iff orders).0 (ground arith)),
      λ h.
          let ones = (All-one_iff orders).1 h.1 in
          let above = All-one_above orders h.1 in ground arith,
    )
