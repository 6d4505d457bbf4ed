-- ===== src/Store/Rows.antt =====
-- Arrays of rows, as every repository of memory-adapters.ts keeps them: `find`, and the pattern of
-- `findIndex`, a check of the row that stands there, and an assignment to its place.
use bug_free_fiesta.Domain.Errors.{Result, ok, err, ApplicationError}
use bug_free_fiesta.Prelude.{
  map, sym, subst, Bool-cases, Memᴰ, inr, inl, refl, false, [], true, Option-cases, if◌then◌else◌,
  some, none, arith, All, Option, length, ◌≡◌, ◌∷◌, Bool, List,
}

module _ {ℓ} {A : Type ℓ} where
  unfoldable pub find_row : (A → Bool) → List A → Option A
  find_row p [] = none
  find_row p (row ∷ rows) = if p row then some row else find_row p rows

  -- `rows[rows.findIndex(p)] = next`
  unfoldable pub replace_row : (A → Bool) → A → List A → List A
  replace_row p next [] = []
  replace_row p next (row ∷ rows) = if p row then next ∷ rows else row ∷ replace_row p next rows

  -- The row that `p` finds is changed by `f`, which may refuse.
  unfoldable pub update_row :
      (A → Bool) → ApplicationError → (A → Result A) → List A → Result (A × List A)
  unfolding find_row replace_row
  update_row p missing f rows = elim (find_row p rows) [
    | none ↦ err missing
    | some current ↦ elim (f current) [
      | err e ↦ err e
      | ok next ↦ ok (next, replace_row p next rows)
    ]
  ]

  pub update_row-ok :
      (p : A → Bool) (missing : ApplicationError) (f : A → Result A) (rows : List A) {next : A}
      {rows' : List A}
      → update_row p missing f rows ≡ ok (next, rows')
      → (current : A) × (find_row p rows ≡ some current)
        × (f current ≡ ok next)
        × (rows' ≡ replace_row p next rows)
  unfolding update_row
  update_row-ok p missing f rows h = elim (Option-cases (find_row p rows)) [
    | inl e ↦ absurd (ground arith)
    | inr (current, e) ↦ (current, ground arith, ground arith, ground arith)
  ]

  pub find_row-holds :
      (p : A → Bool) (rows : List A) (row : A) → find_row p rows ≡ some row → p row ≡ true
  unfolding find_row
  find_row-holds p [] row h = cc
  find_row-holds p (x ∷ rows) row h = ground (arith, find_row-holds p rows row)

  pub find_row-mem :
      (p : A → Bool) (rows : List A) (row : A) → find_row p rows ≡ some row → Memᴰ row rows
  unfolding find_row
  find_row-mem p [] row h = cc
  find_row-mem p (x ∷ rows) row h = elim (Bool-cases (p x)) [
    | inl hit ↦ Memᴰ.head (ground arith)
    | inr miss ↦ Memᴰ.tail (find_row-mem p rows row (ground arith))
  ]

  -- The changed row is the one that is found afterwards.
  pub find_row-replace_row :
      (p : A → Bool) (next current : A) (rows : List A)
      → find_row p rows ≡ some current
      → p next ≡ true
      → find_row p (replace_row p next rows) ≡ some next
  unfolding find_row replace_row
  find_row-replace_row p next current [] h k = cc
  find_row-replace_row p next current (x ∷ rows) h k =
      ground (arith, find_row-replace_row p next current rows)

  -- A search that the old row and the new one both fail sees no change.
  pub find_row-replace_row_other :
      (p q : A → Bool) (next current : A) (rows : List A)
      → find_row p rows ≡ some current
      → q current ≡ false
      → q next ≡ false
      → find_row q (replace_row p next rows) ≡ find_row q rows
  unfolding find_row replace_row
  find_row-replace_row_other p q next current [] h k l = refl
  find_row-replace_row_other p q next current (x ∷ rows) h k l =
      ground (arith, find_row-replace_row_other p q next current rows)

  pub length-replace_row :
      (p : A → Bool) (next : A) (rows : List A) → length (replace_row p next rows) ≡ length rows
  unfolding replace_row
  length-replace_row p next [] = refl
  length-replace_row p next (x ∷ rows) = ground (arith, length-replace_row p next rows)

  pub All-replace_row {κ} :
      (P : A → Type κ) (p : A → Bool) (next : A) (rows : List A)
      → All P rows
      → P next
      → All P (replace_row p next rows)
  unfolding replace_row
  All-replace_row P p next [] h k = tt
  All-replace_row P p next (x ∷ rows) h k = ground (arith, All-replace_row P p next rows h.1 k)

  pub All-mem {κ} : (P : A → Type κ) (rows : List A) {row : A} → All P rows → Memᴰ row rows → P row
  All-mem P [] h m = elim m [ ]
  All-mem P (x ∷ rows) h (Memᴰ.head e) = subst P (sym e) h.0
  All-mem P (x ∷ rows) h (Memᴰ.tail m) = All-mem P rows h.1 m

module _ {ℓ κ} {A : Type ℓ} {B : Type κ} where
  -- What the new row shares with the old one is the same in all the rows.
  pub map-replace_row :
      (f : A → B) (p : A → Bool) (next current : A) (rows : List A)
      → find_row p rows ≡ some current
      → f next ≡ f current
      → map f (replace_row p next rows) ≡ map f rows
  unfolding find_row replace_row
  map-replace_row f p next current [] h k = refl
  map-replace_row f p next current (x ∷ rows) h k = elim (Bool-cases (p x)) [
    | inl hit ↦ ground arith
    | inr miss ↦ ground (arith, map-replace_row f p next current rows (ground arith) k)
  ]
