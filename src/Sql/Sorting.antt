-- ===== src/Sql/Sorting.antt =====
-- ORDER BY, LIMIT and OFFSET.
use radix_relay.Prelude.{
  ℕ, zero, suc, not, ◌≡◌, refl, ◌∙◌, inl, inr, Bool, true, false, List, [], ◌∷◌, if◌then◌else◌,
  Bool-cases, arith,
}
use radix_relay.Sql.Tables.{All, All-map, count}

module _ {ℓ} {A : Type ℓ} where
  abbrev pub take : ℕ → List A → List A
  take zero xs = []
  take (suc n) [] = []
  take (suc n) (x ∷ xs) = x ∷ take n xs

  abbrev pub drop : ℕ → List A → List A
  drop zero xs = xs
  drop (suc n) [] = []
  drop (suc n) (x ∷ xs) = drop n xs

  -- `LIMIT n OFFSET k`
  unfoldable pub page : ℕ → ℕ → List A → List A
  page limit offset xs = take limit (drop offset xs)

  pub All-take {κ} : (P : A → Type κ) (n : ℕ) (xs : List A) → All P xs → All P (take n xs)
  All-take P zero xs h = tt
  All-take P (suc n) [] h = tt
  All-take P (suc n) (x ∷ xs) h = (h.0, All-take P n xs h.1)

  pub All-drop {κ} : (P : A → Type κ) (n : ℕ) (xs : List A) → All P xs → All P (drop n xs)
  All-drop P zero xs h = h
  All-drop P (suc n) [] h = tt
  All-drop P (suc n) (x ∷ xs) h = All-drop P n xs h.1

-- `before x y` says that `x` comes before `y`: for ORDER BY k DESC, that k of `x` is higher.
module _ {ℓ} {A : Type ℓ} (before : A → A → Bool) where
  unfoldable pub insert_row : A → List A → List A
  insert_row x [] = x ∷ []
  insert_row x (y ∷ ys) = if before y x then y ∷ insert_row x ys else x ∷ y ∷ ys

  -- A sort that keeps the order of the table among rows that are equal in the order.
  unfoldable pub order_by : List A → List A
  unfolding insert_row
  order_by [] = []
  order_by (x ∷ xs) = insert_row x (order_by xs)

  -- No row comes after one that it should come before.
  abbrev pub IsOrdered : List A → Type ℓ
  IsOrdered [] = Unit
  IsOrdered (x ∷ xs) = All (λ y. before y x ≡ false) xs × IsOrdered xs

  pub IsOrdered-take : (n : ℕ) (xs : List A) → IsOrdered xs → IsOrdered (take n xs)
  IsOrdered-take zero xs h = tt
  IsOrdered-take (suc n) [] h = tt
  IsOrdered-take (suc n) (x ∷ xs) h = (All-take _ n xs h.0, IsOrdered-take n xs h.1)

  pub IsOrdered-drop : (n : ℕ) (xs : List A) → IsOrdered xs → IsOrdered (drop n xs)
  IsOrdered-drop zero xs h = h
  IsOrdered-drop (suc n) [] h = tt
  IsOrdered-drop (suc n) (x ∷ xs) h = IsOrdered-drop n xs h.1

  pub All-insert_row {κ} :
      (P : A → Type κ) (x : A) (xs : List A) → P x → All P xs → All P (insert_row x xs)
  unfolding insert_row
  All-insert_row P x [] p h = (p, tt)
  All-insert_row P x (y ∷ ys) p h = elim (Bool-cases (before y x)) [
    | inl e ↦ rw e (h.0, All-insert_row P x ys p h.1)
    | inr e ↦ rw e (p, h)
  ]

  pub All-order_by {κ} : (P : A → Type κ) (xs : List A) → All P xs → All P (order_by xs)
  unfolding order_by
  All-order_by P [] h = tt
  All-order_by P (x ∷ xs) h = All-insert_row P x (order_by xs) h.0 (All-order_by P xs h.1)

  pub count-order_by : (p : A → Bool) (xs : List A) → count p (order_by xs) ≡ count p xs
  unfolding order_by count
  count-order_by p [] = refl
  count-order_by p (x ∷ xs) = count-insert_row x (order_by xs) ∙ ground (arith, count-order_by p xs)
    where
      count-insert_row : (x : A) (ys : List A) → count p (insert_row x ys) ≡ count p (x ∷ ys)
      count-insert_row x [] = refl
      count-insert_row x (y ∷ ys) = ground (arith, count-insert_row x ys)

-- ORDER BY as the database answers it: a sort, which may take rows that are equal in the order in any
-- order among them.
pub record OrderBy {ℓ} (A : Type ℓ) (before : A → A → Bool) : Type ℓ where
  pub sort : List A → List A

-- What SQL promises of it: the same rows, each as often, and none after one that it should be before.
pub record OrderByLaws {ℓ} {A : Type ℓ} {before : A → A → Bool} (O : OrderBy A before)
    : Type ℓ where
  pub same_rows : (p : A → Bool) (xs : List A) → count p (O.sort xs) ≡ count p xs
  pub in_order : (xs : List A) → IsOrdered before (O.sort xs)

-- What no row of a list is, no row of the sorted list is.
pub All-count :
    {A : Type 0} (p : A → Bool) (xs : List A)
    → count (λ x. not (p x)) xs ≡ 0
    → All (λ x. p x ≡ true) xs
unfolding count
All-count p [] h = tt
All-count p (x ∷ xs) h = elim (Bool-cases (p x)) [
  | inl e ↦ (e, All-count p xs (ground (arith, e)))
  | inr e ↦ absurd (ground (arith, e))
]

pub count-All :
    {A : Type 0} (p : A → Bool) (xs : List A)
    → All (λ x. p x ≡ true) xs
    → count (λ x. not (p x)) xs ≡ 0
unfolding count
count-All p [] h = refl
count-All p (x ∷ xs) h = rw (h.0, count-All p xs h.1)

-- A strict weak order: the order of a numeric column, say.
module _ {ℓ} {A : Type ℓ} (before : A → A → Bool)
    (asym : (x y : A) → before x y ≡ true → before y x ≡ false)
    (tran : (x y z : A) → before y x ≡ false → before z y ≡ false → before z x ≡ false) where
  insert_row-IsOrdered :
      (x : A) (xs : List A) → IsOrdered before xs → IsOrdered before (insert_row before x xs)
  unfolding insert_row
  insert_row-IsOrdered x [] h = (tt, tt)
  insert_row-IsOrdered x (y ∷ ys) h = elim (Bool-cases (before y x)) [
    | inl e ↦ rw e (
      All-insert_row before (λ z. before z y ≡ false) x ys (asym y x e) h.0,
      insert_row-IsOrdered x ys h.1,
    )
    | inr e ↦ rw e (
      (
        e,
        All-map (λ z. before z y ≡ false) (λ z. before z x ≡ false) ys (λ z k. tran x y z e k) h.0,
      ),
      h,
    )
  ]

  pub order_by-IsOrdered : (xs : List A) → IsOrdered before (order_by before xs)
  unfolding order_by
  order_by-IsOrdered [] = tt
  order_by-IsOrdered (x ∷ xs) = insert_row-IsOrdered x (order_by before xs) (order_by-IsOrdered xs)

  -- The sort that keeps the order of the table is one of them.
  abbrev pub stable : OrderBy A before
  stable = record { sort = order_by before }

  pub stable_laws : OrderByLaws stable
  stable_laws = record { same_rows = count-order_by before; in_order = order_by-IsOrdered }
