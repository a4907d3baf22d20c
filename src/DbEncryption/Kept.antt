-- ===== src/DbEncryption/Kept.antt =====
-- The key of the database over several runs of the program.
use radix_relay.Prelude.{
  ℕ, zero, suc, ◌≤◌, ◌≡◌, ◌≢◌, refl, ap, ◌∙◌, sym, inl, inr, Bool, true, false, Option, none, some,
  List, [], ◌∷◌, length, if◌then◌else◌, ◌==◌, ltb, nat_eq, Bool-cases, arith,
}
use radix_relay.Prelude.Assoc.{lookup, insert, lookup-insert}
use radix_relay.Prelude.Decimal.{codes_eq, list_eqb_iff}
use radix_relay.Exec.{Exec, Outcome, ok, err, panic, key_storage, continue, pure, ◌>>◌}
use radix_relay.DbEncryption.{
  Files, System, db_key_length, memory_path, get_key_file_path, generate_db_key, allowed, take,
  read_exact, read_file, write_key, store_db_key, retrieve_db_key, create_db_key, or_create,
  get_or_create_db_key,
}

take-all : (n : ℕ) (bs : List ℕ) → length bs ≡ n → take n bs ≡ bs
take-all zero [] e = refl
take-all (suc n) [] e = refl
take-all zero (b ∷ bs) e = absurd (omega arith)
take-all (suc n) (b ∷ bs) e = ap (λ xs. b ∷ xs) (take-all n bs (omega arith))

read_exact-all : (bs : List ℕ) → length bs ≡ db_key_length → read_exact bs ≡ ok bs
read_exact-all bs e = rw e (ap (λ xs. ok xs) (take-all db_key_length bs e))

path-eq_false : (p q : List ℕ) → p ≢ q → (p == q) ≡ false
path-eq_false p q ne = elim (Bool-cases (p == q)) [
  | inl same ↦ absurd (ne ((list_eqb_iff p q).0 same))
  | inr other ↦ other
]

path-eq_true : (p : List ℕ) → (p == p) ≡ true
path-eq_true p = (list_eqb_iff p p).1 refl

take-length : (n : ℕ) (bs : List ℕ) → n ≤ length bs → length (take n bs) ≡ n
take-length zero bs h = refl
take-length (suc n) [] h = absurd (omega arith)
take-length (suc n) (b ∷ bs) h = ap (λ k. suc k) (take-length n bs (omega arith))

read_exact-length :
    (bs : List ℕ) {key : List ℕ} → read_exact bs ≡ ok key → length key ≡ db_key_length
read_exact-length bs {key} h = elim (Bool-cases (ltb (length bs) db_key_length)) [
  | inl short ↦ absurd (ground arith)
  | inr long ↦
      let e : take db_key_length bs ≡ key = ground arith in
      rw (← e) (take-length db_key_length bs (ground arith))
]

read_file-length :
    (may_open : Bool) (o : Option (List ℕ)) {key : List ℕ}
    → read_file may_open o ≡ ok key
    → length key ≡ db_key_length
read_file-length may_open none h = absurd cc
read_file-length false (some bytes) h = absurd cc
read_file-length true (some bytes) h = read_exact-length bytes h

abbrev write_steps : Bool → Bool → Bool → Bool → List ℕ → List ℕ → Exec Files Unit
write_steps dir create perm write path key = do
  allowed dir
  allowed create
  λ f. (ok tt, insert path [] f)
  allowed perm
  allowed write
  λ f. (ok tt, insert path key f)

-- The steps of `write_key`, by what is allowed: if all was done the key is in its file, and the other
-- files are what they were.
write-done :
    (dir create perm write : Bool) (path key : List ℕ) (files : Files)
    → (write_steps dir create perm write path key files).0 ≡ ok tt
    → (other : List ℕ)
    → lookup other (write_steps dir create perm write path key files).1
      ≡ (if path == other then some key else lookup other files)
write-done false c p w path key files h other = cc
write-done true false p w path key files h other = cc
write-done true true false w path key files h other = cc
write-done true true true false path key files h other = cc
write-done true true true true path key files h other =
    rw (lookup-insert path other key (insert path [] files), lookup-insert path other [] files)
      (elim (Bool-cases (path == other)) [ inl same ↦ rw same | inr away ↦ rw away ])

module _ (system : System) where
  write_key-done :
      (path key : List ℕ) (files : Files)
      → (write_key system path key files).0 ≡ ok tt
      → (other : List ℕ)
      → lookup other (write_key system path key files).1
        ≡ (if path == other then some key else lookup other files)
  write_key-done path key files h other =
      write-done (system.may_create_dir path) (system.may_create path)
        (system.may_set_permissions path) (system.may_write path) path key files h other

  store_db_key-eq :
      (db_path key : List ℕ) (files : Files)
      → (db_path == memory_path) ≡ false
      → store_db_key system db_path key files
        ≡ write_key system (get_key_file_path db_path) key files
  unfolding store_db_key
  store_db_key-eq db_path key files ne = rw ne

  retrieve_db_key-found :
      (db_path : List ℕ) (files : Files) {key : List ℕ}
      → (db_path == memory_path) ≡ false
      → system.may_open (get_key_file_path db_path) ≡ true
      → lookup (get_key_file_path db_path) files ≡ some key
      → length key ≡ db_key_length
      → retrieve_db_key system db_path files ≡ ok key
  unfolding retrieve_db_key
  retrieve_db_key-found db_path files {key} ne opens there l =
      rw (ne, opens, there) (read_exact-all key l)

  retrieve_db_key-length :
      (db_path : List ℕ) (files : Files) {key : List ℕ}
      → (db_path == memory_path) ≡ false
      → retrieve_db_key system db_path files ≡ ok key
      → length key ≡ db_key_length
  unfolding retrieve_db_key
  retrieve_db_key-length db_path files ne h =
      let path = get_key_file_path db_path in
      let r = read_file (system.may_open path) (lookup path files) in
      let e : (if db_path == memory_path then err key_storage else r) ≡ r = rw ne in
      read_file-length (system.may_open path) (lookup path files) (sym e ∙ h)

finished :
    (r : Outcome Unit) (k : List ℕ) (files : Files) {key : List ℕ}
    → (continue r (λ u. pure k) files).0 ≡ ok key
    → (r ≡ ok tt) × (key ≡ k) × ((continue r (λ u. pure k) files).1 ≡ files)
finished (ok tt) k files h = (refl, cc, refl)
finished (err e) k files h = absurd cc
finished panic k files h = absurd cc

module _ (system : System) {Rng : Type 0} (fill_bytes : Rng → ℕ → List ℕ) where
  create_db_key-eq :
      (rng : Rng) (db_path : List ℕ) (files : Files)
      → (db_path == memory_path) ≡ false
      → let key = fill_bytes rng db_key_length in
        let w = write_key system (get_key_file_path db_path) key files in
        create_db_key system fill_bytes rng db_path files ≡ continue w.0 (λ u. pure key) w.1
  unfolding generate_db_key create_db_key store_db_key
  create_db_key-eq rng db_path files ne =
      let key = fill_bytes rng db_key_length in
      ap (λ w. continue w.0 (λ (u : Unit). pure key) w.1)
        (store_db_key-eq system db_path key files ne)

  -- What a call leaves that made a key.
  abbrev KeyIsIn : List ℕ → List ℕ → Files → Files → Type 0
  KeyIsIn db_path key before after =
      (other : List ℕ)
      → lookup other after
        ≡ (if get_key_file_path db_path == other then some key else lookup other before)

  create_db_key-done :
      (rng : Rng) (db_path : List ℕ) (files : Files) {key : List ℕ}
      → (db_path == memory_path) ≡ false
      → (create_db_key system fill_bytes rng db_path files).0 ≡ ok key
      → (key ≡ fill_bytes rng db_key_length)
        × KeyIsIn db_path key files (create_db_key system fill_bytes rng db_path files).1
  create_db_key-done rng db_path files ne h =
      let k = fill_bytes rng db_key_length in
      let path = get_key_file_path db_path in
      let w = write_key system path k files in
      let e = create_db_key-eq rng db_path files ne in
      let (done, same, kept) = finished w.0 k w.1 (ap (λ x. x.0) (sym e) ∙ h) in
      (same, λ other. rw (e, kept, same) (write_key-done system path k files done other))

  or_create-kept :
      (r : Outcome (List ℕ)) (rng : Rng) (db_path : List ℕ) (files : Files) {key : List ℕ}
      → ((g : Rng) → length (fill_bytes g db_key_length) ≡ db_key_length)
      → (db_path == memory_path) ≡ false
      → retrieve_db_key system db_path files ≡ r
      → system.may_open (get_key_file_path db_path) ≡ true
      → (or_create system fill_bytes r rng db_path files).0 ≡ ok key
      → (retrieve_db_key system db_path (or_create system fill_bytes r rng db_path files).1
          ≡ ok key)
        × (length key ≡ db_key_length)
        × ((other : List ℕ)
            → (get_key_file_path db_path == other) ≡ false
            → lookup other (or_create system fill_bytes r rng db_path files).1 ≡ lookup other files)
  unfolding or_create
  or_create-kept (ok k) rng db_path files fills ne e opens h =
      let e' = e ∙ h in (e', retrieve_db_key-length system db_path files ne e', λ other away. refl)
  or_create-kept (err x) rng db_path files fills ne e opens h =
      let path = get_key_file_path db_path in
      let (same, kept) = create_db_key-done rng db_path files ne h in
      let l = ap length same ∙ fills rng in
      (
        retrieve_db_key-found system db_path (create_db_key system fill_bytes rng db_path files).1
            ne opens (kept path ∙ rw (path-eq_true path)) l,
        l,
        λ other away. kept other ∙ rw away,
      )
  or_create-kept panic rng db_path files fills ne e opens h = absurd cc

  same_or_other :
      (path other : List ℕ) (before after : Files)
      → ((p : List ℕ) → (path == p) ≡ false → lookup p after ≡ lookup p before)
      → lookup other after ≡ (if path == other then lookup path after else lookup other before)
  same_or_other path other before after h = elim (Bool-cases (path == other)) [
    | inl same ↦ rw same (ap (λ p. lookup p after) (sym ((list_eqb_iff path other).0 same)))
    | inr away ↦ rw away (h other away)
  ]

  -- On a system that lets the key file be opened, with a generator that fills the bytes asked for,
  -- a call that gave a key for a database in a file leaves that key, of 32 bytes, for every later
  -- call, which gives it again and changes nothing; no other file has changed.
  pub get_or_create_db_key-kept :
      (rng later : Rng) (db_path : List ℕ) (files : Files) (key : List ℕ)
      → ((g : Rng) → length (fill_bytes g db_key_length) ≡ db_key_length)
      → (db_path == memory_path) ≡ false
      → system.may_open (get_key_file_path db_path) ≡ true
      → (get_or_create_db_key system fill_bytes rng db_path files).0 ≡ ok key
      → let after = (get_or_create_db_key system fill_bytes rng db_path files).1 in
        (get_or_create_db_key system fill_bytes later db_path after ≡ (ok key, after))
        × (length key ≡ db_key_length)
        × ((other : List ℕ)
            → let path = get_key_file_path db_path in
              lookup other after
              ≡ (if path == other then lookup path after else lookup other files))
  unfolding get_or_create_db_key or_create
  get_or_create_db_key-kept rng later db_path files key fills ne opens h =
      let r = retrieve_db_key system db_path files in
      let after = (or_create system fill_bytes r rng db_path files).1 in
      let (e, l, others) = or_create-kept r rng db_path files fills ne refl opens h in
      (
        ap (λ x. or_create system fill_bytes x later db_path after) e,
        l,
        λ other. same_or_other (get_key_file_path db_path) other files after others,
      )
