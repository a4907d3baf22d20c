-- ===== src/Bridge/Json.antt =====
-- What rust/signal_bridge/src/lib.rs uses of the crates serde_json and base64, as parameters, and
-- what its clients rely on.
use radix_relay.Prelude.{
  ℕ, ◌<◌, ◌^◌, ◌≡◌, Option, some, List, [], ◌∷◌, ◌++◌, String, if◌then◌else◌, ◌==◌, string_eq,
}
use radix_relay.Exec.{Outcome, ok}

-- `serde_json::Value`, and the texts that values are written as.
pub record JsonApi : Type 1 where
  pub Value : Type 0
  pub Text : Type 0
  pub null : Value
  pub string : String → Value
  pub number : ℕ → Value
  pub array : List Value → Value
  -- `json!({..})`, whose members are inserted in the order given
  pub object : List (String × Value) → Value
  -- `value[key]`, and `value[key] = v`, which panics where the value can have no members
  pub get : Value → String → Value
  pub put : Value → String → Value → Outcome Value
  pub as_u64 : Value → Option ℕ
  pub as_str : Value → Option String
  pub as_array : Value → Option (List Value)
  pub to_string : Value → Option Text
  pub from_str : Text → Option Value

-- The member under a key: a later one has replaced an earlier one.
abbrev pub member {ℓ} : {V : Type ℓ} → V → String → List (String × V) → V
member v key [] = v
member v key ((k, w) ∷ fields) = member (if k == key then w else v) key fields

pub record JsonLaws (J : JsonApi) : Type 0 where
  pub get-object :
      (fields : List (String × J.Value)) (key : String)
      → J.get (J.object fields) key ≡ member J.null key fields
  pub put-object :
      (fields : List (String × J.Value)) (key : String) (v : J.Value)
      → J.put (J.object fields) key v ≡ ok (J.object (fields ++ (key, v) ∷ []))
  pub u64_back : (n : ℕ) → n < 2 ^ 64 → J.as_u64 (J.number n) ≡ some n
  pub str_back : (t : String) → J.as_str (J.string t) ≡ some t
  pub array_back : (vs : List J.Value) → J.as_array (J.array vs) ≡ some vs
  -- every value is written, and is then read back
  pub written : (v : J.Value) → (t : J.Text) × (J.to_string v ≡ some t)
  pub text_back : (v : J.Value) {t : J.Text} → J.to_string v ≡ some t → J.from_str t ≡ some v

-- `base64::engine::general_purpose::STANDARD`
pub record Base64 : Type 0 where
  pub encode : List ℕ → String
  pub decode : String → Option (List ℕ)
