-- ===== src/StorageTrait/Tables.antt =====
-- Key stores whose state is a table from ids to rows, with the rows decoded on reading: from what the
-- operations do to the table follow the laws of StorageTrait.
use radix_relay.Prelude.{
  ℕ, ◌≡◌, ◌⊎◌, refl, ap, ◌∙◌, sym, inl, inr, Option, none, some, [], length, if◌then◌else◌, ◌==◌,
  nat_eq, is_some, Bool-cases, Option-cases, arith,
}
use radix_relay.Prelude.Assoc.{
  Assoc, lookup, insert, erase, Distinct, lookup-insert, lookup-erase, length-insert, length-erase,
  insert-Distinct, erase-Distinct, lookup-length, length_one,
}
use radix_relay.Prelude.MaxKey.{max_key, max_key-none, max_key-above, max_key-found}
use radix_relay.Exec.{Error, ok, err}
use radix_relay.StorageTrait.{KeyStore, KeyStoreLaws}

-- `T` keeps a table `rows` in which a row stands for the record that `decode` gives, and `row` is
-- what is written for a record. `IsGood` is what every row in the table satisfies.
pub record TableStore (T : KeyStore) : Type 1 where
  pub Row : Type 0
  pub rows : T.Store → Assoc ℕ Row
  pub decode : Row → Option T.KeyRecord
  pub IsGood : Row → Type 0
  pub Fits : ℕ → T.KeyRecord → Type 0
  pub row : (i : ℕ) (r : T.KeyRecord) → Fits i r → Row
  pub missing : Error
  pub good_decodes : (w : Row) → IsGood w → (r : T.KeyRecord) × (decode w ≡ some r)
  pub row-IsGood : (i : ℕ) (r : T.KeyRecord) (h : Fits i r) → IsGood (row i r h)
  pub decode-row : (i : ℕ) (r : T.KeyRecord) (h : Fits i r) → decode (row i r h) ≡ some r
  pub get_row :
      (s : T.Store) (i : ℕ) {w : Row} {r : T.KeyRecord}
      → lookup i (rows s) ≡ some w
      → decode w ≡ some r
      → T.get s i ≡ ok r
  pub get_none : (s : T.Store) (i : ℕ) → lookup i (rows s) ≡ none → T.get s i ≡ err missing
  pub save_done : (i : ℕ) (r : T.KeyRecord) (s : T.Store) → Fits i r → (T.save i r s).0 ≡ ok tt
  pub save_rows :
      (i : ℕ) (r : T.KeyRecord) (s : T.Store) (h : Fits i r)
      → rows (T.save i r s).1 ≡ insert i (row i r h) (rows s)
  pub delete_done : (i : ℕ) (s : T.Store) → (T.delete i s).0 ≡ ok tt
  pub delete_rows : (i : ℕ) (s : T.Store) → rows (T.delete i s).1 ≡ erase i (rows s)
  pub clear_done : (s : T.Store) → (T.clear_all s).0 ≡ ok tt
  pub clear_rows : (s : T.Store) → rows (T.clear_all s).1 ≡ []
  pub count_rows : (s : T.Store) → T.count s ≡ length (rows s)
  pub max_rows : (s : T.Store) → T.max_id s ≡ ok (max_key (rows s))

module _ {Row R : Type 0} (decode : Row → Option R) where
  abbrev pub decoded : Option Row → Option R
  decoded none = none
  decoded (some w) = decode w

  pub decoded-some :
      (o : Option Row) {r : R} → decoded o ≡ some r → (w : Row) × (o ≡ some w) × (decode w ≡ some r)
  decoded-some none h = cc
  decoded-some (some w) h = (w, refl, h)

  -- Every row of the table is good, and no id is there twice.
  abbrev pub IsTable : (Row → Type 0) → Assoc ℕ Row → Type 0
  IsTable IsGood m = Distinct m × ((i : ℕ) (w : Row) → lookup i m ≡ some w → IsGood w)

  module _ (IsGood : Row → Type 0)
      (good : (w : Row) → IsGood w → (r : R) × (decode w ≡ some r)) where
    pub find-none :
        (m : Assoc ℕ Row) (i : ℕ)
        → IsTable IsGood m
        → decoded (lookup i m) ≡ none
        → lookup i m ≡ none
    find-none m i v e = elim (Option-cases (lookup i m)) [
      | inl absent ↦ absent
      | inr (w, there) ↦
          let (r, d) = good w (v.1 i w there) in absurd (ground (arith, ap decoded there))
    ]

    pub is_some-find :
        (m : Assoc ℕ Row) (i : ℕ)
        → IsTable IsGood m
        → is_some (decoded (lookup i m)) ≡ is_some (lookup i m)
    is_some-find m i v = elim (Option-cases (lookup i m)) [
      | inl absent ↦ rw absent
      | inr (w, there) ↦ let (r, d) = good w (v.1 i w there) in rw (there, d)
    ]

    pub found-some :
        (m : Assoc ℕ Row) (i : ℕ) {w : Row}
        → IsTable IsGood m
        → lookup i m ≡ some w
        → (r : R) × (decoded (lookup i m) ≡ some r)
    found-some m i {w} v there = let (r, d) = good w (v.1 i w there) in (r, ap decoded there ∙ d)

  pub find-insert :
      (i j : ℕ) (w : Row) (m : Assoc ℕ Row) {r : R}
      → decode w ≡ some r
      → decoded (lookup j (insert i w m)) ≡ (if i == j then some r else decoded (lookup j m))
  find-insert i j w m d =
      rw (lookup-insert i j w m) (elim (Bool-cases (i == j)) [ inl e ↦ rw e d | inr e ↦ rw e ])

  pub find-erase :
      (i j : ℕ) (m : Assoc ℕ Row)
      → decoded (lookup j (erase i m)) ≡ (if i == j then none else decoded (lookup j m))
  find-erase i j m =
      rw (lookup-erase i j m) (elim (Bool-cases (i == j)) [ inl e ↦ rw e | inr e ↦ rw e ])

module _ {Row : Type 0} (IsGood : Row → Type 0) where
  pub insert-IsTable :
      (i : ℕ) (w : Row) (m : Assoc ℕ Row)
      → IsGood w
      → Distinct m × ((j : ℕ) (u : Row) → lookup j m ≡ some u → IsGood u)
      → Distinct (insert i w m) × ((j : ℕ) (u : Row) → lookup j (insert i w m) ≡ some u → IsGood u)
  insert-IsTable i w m h v = (
    insert-Distinct i w m v.0,
    λ j u e. elim (Bool-cases (i == j)) [
      | inl same ↦ let e' : w ≡ u = ground (arith, lookup-insert i j w m) in rw (← e') h
      | inr other ↦ v.1 j u (ground (arith, lookup-insert i j w m))
    ],
  )

  pub erase-IsTable :
      (i : ℕ) (m : Assoc ℕ Row)
      → Distinct m × ((j : ℕ) (u : Row) → lookup j m ≡ some u → IsGood u)
      → Distinct (erase i m) × ((j : ℕ) (u : Row) → lookup j (erase i m) ≡ some u → IsGood u)
  erase-IsTable i m v =
      (erase-Distinct i m v.0, λ j u e. v.1 j u (ground (arith, lookup-erase i j m)))

  pub nil-IsTable :
      (m : Assoc ℕ Row) → m ≡ [] → Distinct m × ((j : ℕ) (u : Row) → lookup j m ≡ some u → IsGood u)
  unfolding lookup
  nil-IsTable m e = rw e (tt, λ j u h. cc)

pub max_key-cases :
    {V : Type 0} (m : Assoc ℕ V)
    → (ok (max_key m) ≡ ok none) ⊎ ((t : ℕ) × (ok (max_key m) ≡ ok (some t)))
max_key-cases m = elim (Option-cases (max_key m)) [
  | inl e ↦ inl (ap (λ (o : Option ℕ). ok o) e)
  | inr (t, e) ↦ inr (t, ap (λ (o : Option ℕ). ok o) e)
]

pub ok-injective {ℓ} : {A : Type ℓ} {a b : A} → ok a ≡ ok b → a ≡ b
ok-injective e = ground arith

module _ {T : KeyStore} (B : TableStore T) where
  -- The abstract view of a table store: the record that the row under an id stands for.
  abbrev pub table_find : T.Store → ℕ → Option T.KeyRecord
  table_find s i = decoded B.decode (lookup i (B.rows s))

  abbrev pub IsTableStore : T.Store → Type 0
  IsTableStore s = IsTable B.decode B.IsGood (B.rows s)

  pub table_get-found :
      (s : T.Store) (i : ℕ) {r : T.KeyRecord} → table_find s i ≡ some r → T.get s i ≡ ok r
  table_get-found s i e =
      let (w, there, d) = decoded-some B.decode (lookup i (B.rows s)) e in B.get_row s i there d

  pub table_max : (s : T.Store) {o : Option ℕ} → T.max_id s ≡ ok o → max_key (B.rows s) ≡ o
  table_max s e = ok-injective (sym (B.max_rows s) ∙ e)

  unfoldable pub table_laws : KeyStoreLaws T
  table_laws = record {
    Valid = IsTableStore;
    Fits = B.Fits;
    find = table_find;
    missing = B.missing;
    get-found = λ s i v e. table_get-found s i e;
    get-missing =
        λ s i v e. B.get_none s i (find-none B.decode B.IsGood B.good_decodes (B.rows s) i v e);
    save-ok = λ i r s v h. B.save_done i r s h;
    save-Valid = λ i r s v h.
        rw (B.save_rows i r s h)
          (insert-IsTable B.IsGood i (B.row i r h) (B.rows s) (B.row-IsGood i r h) v);
    find-save = λ i r s j v h.
        rw (B.save_rows i r s h)
          (find-insert B.decode i j (B.row i r h) (B.rows s) (B.decode-row i r h));
    count-save = λ i r s v h.
        rw
          (
            B.count_rows (T.save i r s).1,
            B.count_rows s,
            B.save_rows i r s h,
            is_some-find B.decode B.IsGood B.good_decodes (B.rows s) i v,
          )
          (length-insert i (B.row i r h) (B.rows s));
    delete-ok = λ i s v. B.delete_done i s;
    delete-Valid = λ i s v. rw (B.delete_rows i s) (erase-IsTable B.IsGood i (B.rows s) v);
    find-delete = λ i s j v. rw (B.delete_rows i s) (find-erase B.decode i j (B.rows s));
    count-delete = λ i s v.
        rw
          (
            B.count_rows (T.delete i s).1,
            B.count_rows s,
            B.delete_rows i s,
            is_some-find B.decode B.IsGood B.good_decodes (B.rows s) i v,
          )
          (length-erase i (B.rows s) v.0);
    clear-ok = λ s v. B.clear_done s;
    clear-Valid = λ s v. nil-IsTable B.IsGood (B.rows (T.clear_all s).1) (B.clear_rows s);
    count-clear = λ s v. B.count_rows (T.clear_all s).1 ∙ ap length (B.clear_rows s);
    max-ok = λ s v. rw (B.max_rows s) (max_key-cases (B.rows s));
    max-none = λ s i v e. ap (decoded B.decode) (max_key-none (B.rows s) i (table_max s e));
    max-found = λ s m v e.
        let (w, there) = max_key-found (B.rows s) m (table_max s e) in
        found-some B.decode B.IsGood B.good_decodes (B.rows s) m v there;
    max-above =
        λ s m i v e h. ap (decoded B.decode) (max_key-above (B.rows s) m i (table_max s e) h);
    count-found = λ s i v e.
        let (w, there, d) = decoded-some B.decode (lookup i (B.rows s)) e in
        rw (B.count_rows s) (lookup-length i (B.rows s) there);
    count-one = λ s i j v few p q.
        let (w, there, d) = decoded-some B.decode (lookup i (B.rows s)) p in
        let (u, there', d') = decoded-some B.decode (lookup j (B.rows s)) q in
        length_one i j (B.rows s) (rw (← B.count_rows s) few) there there';
  }
