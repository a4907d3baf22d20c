-- ===== src/Sql/Unique.antt =====
-- Primary keys and UNIQUE columns.
use radix_relay.Prelude.{
  ◌≡◌, ◌≢◌, refl, ap, sym, ◌∙◌, inl, inr, Bool, true, false, none, some, List, [], ◌∷◌, ◌++◌,
  Bool-cases, arith,
}
use radix_relay.Sql.Tables.{query_row, update, delete, All, All-append, All-update, All-delete}

module _ {ℓ} {A : Type ℓ} where
  pub query_row-All {κ} :
      (P : A → Type κ) (p : A → Bool) (xs : List A) {x : A}
      → All P xs
      → query_row p xs ≡ some x
      → P x
  unfolding query_row
  query_row-All P p [] h e = absurd (ground arith)
  query_row-All P p (y ∷ xs) {x} h e = elim (Bool-cases (p y)) [
    | inl b ↦ let same : y ≡ x = ground arith in rw (← same) h.0
    | inr b ↦ query_row-All P p xs {x = x} h.1 (ground arith)
  ]

  pub query_row-none :
      (p : A → Bool) (xs : List A) → query_row p xs ≡ none → All (λ x. p x ≡ false) xs
  unfolding query_row
  query_row-none p [] h = tt
  query_row-none p (x ∷ xs) h = (ground arith, query_row-none p xs (ground arith))

  pub query_row-none_of :
      (p : A → Bool) (xs : List A) → All (λ x. p x ≡ false) xs → query_row p xs ≡ none
  unfolding query_row
  query_row-none_of p [] h = refl
  query_row-none_of p (x ∷ xs) h = ground (arith, query_row-none_of p xs h.1)

module _ {ℓ κ} {A : Type ℓ} {K : Type κ} (key : A → K) where
  -- No two rows have one key.
  abbrev pub IsUnique : List A → Type (ℓ ⊔ κ)
  IsUnique [] = Unit
  IsUnique (x ∷ xs) = All (λ y. key y ≢ key x) xs × IsUnique xs

  pub IsUnique-append :
      (xs : List A) (x : A) → IsUnique xs → All (λ y. key x ≢ key y) xs → IsUnique (xs ++ x ∷ [])
  IsUnique-append [] x u h = (tt, tt)
  IsUnique-append (y ∷ xs) x u h =
      (All-append (λ z. key z ≢ key y) xs (x ∷ []) u.0 (h.0, tt), IsUnique-append xs x u.1 h.1)

  pub IsUnique-update :
      (p : A → Bool) (f : A → A) (xs : List A)
      → ((x : A) → key (f x) ≡ key x)
      → IsUnique xs
      → IsUnique (update p f xs)
  unfolding update
  IsUnique-update p f [] keep u = tt
  IsUnique-update p f (x ∷ xs) keep u =
      let rest = IsUnique-update p f xs keep u.1 in
      let apart = All-update (λ y. key y ≢ key x) p f xs (λ y h. rw (keep y) h) u.0 in
      elim (Bool-cases (p x)) [
        | inl e ↦ rw e (rw (keep x) apart, rest)
        | inr e ↦ rw e (apart, rest)
      ]

  pub IsUnique-delete : (p : A → Bool) (xs : List A) → IsUnique xs → IsUnique (delete p xs)
  unfolding delete
  IsUnique-delete p [] u = tt
  IsUnique-delete p (x ∷ xs) u = elim (Bool-cases (p x)) [
    | inl e ↦ rw e (IsUnique-delete p xs u.1)
    | inr e ↦ rw e (All-delete (λ y. key y ≢ key x) p xs u.0, IsUnique-delete p xs u.1)
  ]

  -- Two queries whose rows have one key have found one row.
  pub IsUnique-same :
      (p q : A → Bool) (xs : List A) {x y : A}
      → IsUnique xs
      → query_row p xs ≡ some x
      → query_row q xs ≡ some y
      → key x ≡ key y
      → x ≡ y
  unfolding query_row
  IsUnique-same p q [] u hp hq e = absurd (ground arith)
  IsUnique-same p q (z ∷ xs) {x} {y} u hp hq e = elim (Bool-cases (p z)) [
    | inl bp ↦ elim (Bool-cases (q z)) [
      | inl bq ↦ ground arith
      | inr bq ↦
          let same : z ≡ x = ground arith in
          let apart : key y ≢ key z =
            query_row-All (λ w. key w ≢ key z) q xs {x = y} u.0 (ground arith) in
          absurd (apart (sym e ∙ ap key (sym same)))
    ]
    | inr bp ↦ elim (Bool-cases (q z)) [
      | inl bq ↦
          let same : z ≡ y = ground arith in
          let apart : key x ≢ key z =
            query_row-All (λ w. key w ≢ key z) p xs {x = x} u.0 (ground arith) in
          absurd (apart (e ∙ ap key (sym same)))
      | inr bq ↦ IsUnique-same p q xs {x = x} {y = y} u.1 (ground arith) (ground arith) e
    ]
  ]

module _ {ℓ} {A : Type ℓ} where
  -- A row that one query found is enough for another query to find one.
  pub query_row-found :
      (p q : A → Bool) (xs : List A) {x : A}
      → query_row p xs ≡ some x
      → q x ≡ true
      → (y : A) × (query_row q xs ≡ some y)
  unfolding query_row
  query_row-found p q [] e h = absurd (ground arith)
  query_row-found p q (z ∷ xs) {x} e h = elim (Bool-cases (q z)) [
    | inl b ↦ (z, rw b)
    | inr b ↦
        let tail : query_row p xs ≡ some x = elim (Bool-cases (p z)) [
          | inl bp ↦ absurd (ground (arith, ap q (query_head z xs {x = x} bp e)))
          | inr bp ↦ ground arith
        ] in
        let (y, found) = query_row-found p q xs {x = x} tail h in (y, rw b found)
  ]
    where
      query_head :
          (z : A) (xs : List A) {x : A} → p z ≡ true → query_row p (z ∷ xs) ≡ some x → z ≡ x
      query_head z xs b e = ground arith

  -- What a deletion leaves of a query: its row, if that is kept, and nothing if there was none.
  pub query_row-delete_kept :
      (p q : A → Bool) (xs : List A) {x : A}
      → query_row q xs ≡ some x
      → p x ≡ false
      → query_row q (delete p xs) ≡ some x
  unfolding query_row delete
  query_row-delete_kept p q [] e h = cc
  query_row-delete_kept p q (y ∷ xs) {x} e h = elim (Bool-cases (q y)) [
    | inl b ↦
        let same : y ≡ x = ground arith in
        let kept : p y ≡ false = rw same h in rw (kept, b) (ground arith)
    | inr b ↦ ground (arith, query_row-delete_kept p q xs {x = x})
  ]

  pub query_row-delete_none :
      (p q : A → Bool) (xs : List A) → query_row q xs ≡ none → query_row q (delete p xs) ≡ none
  unfolding query_row delete
  query_row-delete_none p q [] e = refl
  query_row-delete_none p q (y ∷ xs) e = ground (arith, query_row-delete_none p q xs)
