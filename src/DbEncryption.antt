-- ===== src/DbEncryption.antt =====
-- rust/signal_bridge/src/db_encryption.rs: the key of the database, in a file beside it. The files
-- of the system are a map from paths, and what the system refuses is a parameter.
pub mod Kept
use radix_relay.Prelude.{
  ℕ, zero, suc, ◌+◌, ◌<◌, ◌≡◌, ◌≢◌, refl, ap, ◌∙◌, sym, inl, inr, Bool, true, false, not, Option,
  none, some, List, [], ◌∷◌, ◌++◌, map, length, if◌then◌else◌, ◌==◌, nat_eq, ltb, Bool-cases,
  Option-cases, arith,
}
use radix_relay.Prelude.Assoc.{Assoc, lookup, insert, lookup-insert}
use radix_relay.Prelude.Decimal.{codes_eq, list_eqb_iff}
use radix_relay.Exec.{Exec, Outcome, ok, err, panic, key_storage, pure, raise, lift, ◌>>=◌, ◌>>◌}

-- A path is its character codes, a file its bytes.
abbrev pub Files : Type 0
Files = Assoc (List ℕ) (List ℕ)

-- What the system allows, by path: to make the directory above it, to create the file or empty it,
-- to set its permissions, to write it, and to open it for reading.
pub record System : Type 0 where
  pub may_create_dir : List ℕ → Bool
  pub may_create : List ℕ → Bool
  pub may_set_permissions : List ℕ → Bool
  pub may_write : List ℕ → Bool
  pub may_open : List ℕ → Bool

abbrev pub db_key_length : ℕ
db_key_length = 32

-- `":memory:"`
abbrev pub memory_path : List ℕ
memory_path = b':' ∷ b'm' ∷ b'e' ∷ b'm' ∷ b'o' ∷ b'r' ∷ b'y' ∷ b':' ∷ []

-- `format!("{}.key", db_path)`
unfoldable pub get_key_file_path : List ℕ → List ℕ
get_key_file_path db_path = db_path ++ (b'.' ∷ b'k' ∷ b'e' ∷ b'y' ∷ [])

-- `fill_bytes` of the generator, on the 32 bytes.
unfoldable pub generate_db_key : {Rng : Type 0} → (Rng → ℕ → List ℕ) → Rng → Outcome (List ℕ)
generate_db_key fill_bytes rng = ok (fill_bytes rng db_key_length)

abbrev pub allowed : Bool → Exec Files Unit
allowed true = pure tt
allowed false = raise key_storage

abbrev pub take : ℕ → List ℕ → List ℕ
take zero bs = []
take (suc n) [] = []
take (suc n) (b ∷ bs) = b ∷ take n bs

-- `read_exact` of the 32 bytes: a shorter file is an error, the rest of a longer one is not read.
abbrev pub read_exact : List ℕ → Outcome (List ℕ)
read_exact bytes =
    if ltb (length bytes) db_key_length then err key_storage else ok (take db_key_length bytes)

abbrev pub read_file : Bool → Option (List ℕ) → Outcome (List ℕ)
read_file may_open none = err key_storage
read_file false (some bytes) = err key_storage
read_file true (some bytes) = read_exact bytes

module _ (system : System) where
  -- `File::create` empties a file that is there, and the key is written after the permissions are
  -- set.
  abbrev pub write_key : List ℕ → List ℕ → Exec Files Unit
  write_key key_path key = do
    allowed (system.may_create_dir key_path)
    allowed (system.may_create key_path)
    λ files. (ok tt, insert key_path [] files)
    allowed (system.may_set_permissions key_path)
    allowed (system.may_write key_path)
    λ files. (ok tt, insert key_path key files)

  unfoldable pub store_db_key : List ℕ → List ℕ → Exec Files Unit
  unfolding get_key_file_path
  store_db_key db_path key =
      if db_path == memory_path then pure tt else write_key (get_key_file_path db_path) key

  unfoldable pub retrieve_db_key : List ℕ → Files → Outcome (List ℕ)
  unfolding get_key_file_path
  retrieve_db_key db_path files =
      let key_path = get_key_file_path db_path in
      if db_path == memory_path
      then err key_storage
      else read_file (system.may_open key_path) (lookup key_path files)

  module _ {Rng : Type 0} (fill_bytes : Rng → ℕ → List ℕ) where
    unfoldable pub create_db_key : Rng → List ℕ → Exec Files (List ℕ)
    unfolding generate_db_key store_db_key
    create_db_key rng db_path = do
      key ← lift (generate_db_key fill_bytes rng)
      store_db_key db_path key
      pure key

    unfoldable pub or_create : Outcome (List ℕ) → Rng → List ℕ → Exec Files (List ℕ)
    unfolding create_db_key
    or_create (ok key) rng db_path = pure key
    or_create (err e) rng db_path = create_db_key rng db_path
    or_create panic rng db_path = λ files. (panic, files)

    unfoldable pub get_or_create_db_key : Rng → List ℕ → Exec Files (List ℕ)
    unfolding retrieve_db_key or_create
    get_or_create_db_key rng db_path files =
        or_create (retrieve_db_key db_path files) rng db_path files
