-- ===== src/Sql/Tables.antt =====
-- SELECT, UPDATE, DELETE and COUNT over the rows of a table.
use radix_relay.Prelude.{
  ℕ, suc, ◌+◌, ◌≡◌, refl, inl, inr, Bool, true, false, Option, none, some, List, [], ◌∷◌, ◌++◌,
  if◌then◌else◌, Bool-cases, arith,
}

module _ {ℓ} {A : Type ℓ} where
  -- `SELECT ... WHERE p`, all rows.
  unfoldable pub select : (A → Bool) → List A → List A
  select p [] = []
  select p (x ∷ xs) = let rest = select p xs in if p x then x ∷ rest else rest

  -- `query_row`: the first row, or none for `QueryReturnedNoRows`.
  unfoldable pub query_row : (A → Bool) → List A → Option A
  query_row p [] = none
  query_row p (x ∷ xs) = if p x then some x else query_row p xs

  -- `UPDATE ... SET f WHERE p`
  unfoldable pub update : (A → Bool) → (A → A) → List A → List A
  update p f [] = []
  update p f (x ∷ xs) = (if p x then f x else x) ∷ update p f xs

  -- `DELETE ... WHERE p`
  unfoldable pub delete : (A → Bool) → List A → List A
  delete p [] = []
  delete p (x ∷ xs) = let rest = delete p xs in if p x then rest else x ∷ rest

  -- `SELECT COUNT(*) ... WHERE p`
  unfoldable pub count : (A → Bool) → List A → ℕ
  count p [] = 0
  count p (x ∷ xs) = if p x then suc (count p xs) else count p xs

  abbrev pub All {κ} : (A → Type κ) → List A → Type κ
  All P [] = Unit
  All P (x ∷ xs) = P x × All P xs

module _ {ℓ} {A : Type ℓ} where
  pub count-append : (p : A → Bool) (xs ys : List A) → count p (xs ++ ys) ≡ count p xs + count p ys
  unfolding count
  count-append p [] ys = omega arith
  count-append p (x ∷ xs) ys = ground (arith, count-append p xs ys)

  pub query_row-append :
      (p : A → Bool) (xs ys : List A)
      → query_row p xs ≡ none
      → query_row p (xs ++ ys) ≡ query_row p ys
  unfolding query_row
  query_row-append p [] ys h = refl
  query_row-append p (x ∷ xs) ys h = ground (arith, query_row-append p xs ys)

  pub query_row-append_some :
      (p : A → Bool) (xs ys : List A) {x : A}
      → query_row p xs ≡ some x
      → query_row p (xs ++ ys) ≡ some x
  unfolding query_row
  query_row-append_some p [] ys h = cc
  query_row-append_some p (y ∷ xs) ys {x} h = ground (arith, query_row-append_some p xs ys {x = x})

  pub query_row-holds : (p : A → Bool) (xs : List A) {x : A} → query_row p xs ≡ some x → p x ≡ true
  unfolding query_row
  query_row-holds p [] h = cc
  query_row-holds p (y ∷ xs) {x} h = elim (Bool-cases (p y)) [
    | inl e ↦ let same : y ≡ x = ground arith in rw (← same) e
    | inr e ↦ query_row-holds p xs {x = x} (ground arith)
  ]

  -- An update that keeps `q` is seen by a query for `q` as the update of the row found.
  pub query_row-update :
      (p q : A → Bool) (f : A → A) (xs : List A) {x : A}
      → ((y : A) → q (f y) ≡ q y)
      → query_row q xs ≡ some x
      → query_row q (update p f xs) ≡ some (if p x then f x else x)
  unfolding query_row update
  query_row-update p q f [] keep h = cc
  query_row-update p q f (y ∷ xs) {x} keep h =
      ground (arith, keep y, query_row-update p q f xs {x = x} keep)

  pub query_row-update-none :
      (p q : A → Bool) (f : A → A) (xs : List A)
      → ((y : A) → q (f y) ≡ q y)
      → query_row q xs ≡ none
      → query_row q (update p f xs) ≡ none
  unfolding query_row update
  query_row-update-none p q f [] keep h = refl
  query_row-update-none p q f (y ∷ xs) keep h =
      ground (arith, keep y, query_row-update-none p q f xs keep)

  pub query_row-delete_self : (p : A → Bool) (xs : List A) → query_row p (delete p xs) ≡ none
  unfolding query_row delete
  query_row-delete_self p [] = refl
  query_row-delete_self p (x ∷ xs) = ground (arith, query_row-delete_self p xs)

  pub count-delete_self : (p : A → Bool) (xs : List A) → count p (delete p xs) ≡ 0
  unfolding count delete
  count-delete_self p [] = refl
  count-delete_self p (x ∷ xs) = ground (arith, count-delete_self p xs)

  -- Deleting rows that `q` does not want is not seen by `q`.
  pub select-delete :
      (p q : A → Bool) (xs : List A)
      → ((x : A) → q x ≡ true → p x ≡ false)
      → select q (delete p xs) ≡ select q xs
  unfolding select delete
  select-delete p q [] apart = refl
  select-delete p q (x ∷ xs) apart = ground (arith, apart x, select-delete p q xs apart)

  pub query_row-delete :
      (p q : A → Bool) (xs : List A)
      → ((x : A) → q x ≡ true → p x ≡ false)
      → query_row q (delete p xs) ≡ query_row q xs
  unfolding query_row delete
  query_row-delete p q [] apart = refl
  query_row-delete p q (x ∷ xs) apart = ground (arith, apart x, query_row-delete p q xs apart)

  pub All-append {κ} : (P : A → Type κ) (xs ys : List A) → All P xs → All P ys → All P (xs ++ ys)
  All-append P [] ys h k = k
  All-append P (x ∷ xs) ys h k = (h.0, All-append P xs ys h.1 k)

  pub All-update {κ} :
      (P : A → Type κ) (p : A → Bool) (f : A → A) (xs : List A)
      → ((x : A) → P x → P (f x))
      → All P xs
      → All P (update p f xs)
  unfolding update
  All-update P p f [] keep h = tt
  All-update P p f (x ∷ xs) keep h = elim (Bool-cases (p x)) [
    | inl e ↦ rw e (keep x h.0, All-update P p f xs keep h.1)
    | inr e ↦ rw e (h.0, All-update P p f xs keep h.1)
  ]

  pub All-delete {κ} :
      (P : A → Type κ) (p : A → Bool) (xs : List A) → All P xs → All P (delete p xs)
  unfolding delete
  All-delete P p [] h = tt
  All-delete P p (x ∷ xs) h = elim (Bool-cases (p x)) [
    | inl e ↦ rw e (All-delete P p xs h.1)
    | inr e ↦ rw e (h.0, All-delete P p xs h.1)
  ]

  pub All-map {κ μ} :
      (P : A → Type κ) (Q : A → Type μ) (xs : List A) → ((x : A) → P x → Q x) → All P xs → All Q xs
  All-map P Q [] f h = tt
  All-map P Q (x ∷ xs) f h = (f x h.0, All-map P Q xs f h.1)
