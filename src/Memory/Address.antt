-- ===== src/Memory/Address.antt =====
-- `address_key` of memory_storage.rs: the key of the session and identity maps.
use radix_relay.Prelude.{
  ℕ, ◌≡◌, ◌↔◌, refl, ap, Bool, true, ◌&&◌, List, [], ◌∷◌, ◌++◌, nat_eqb, Eq, arith,
}
use radix_relay.Prelude.Decimal.{
  decimal, decimal-injective, AllDigits, decimal-AllDigits, list_eqb, list_eqb_iff,
}

-- libsignal's `ProtocolAddress`, by its accessors `name()` and `device_id()`; a name is a list of
-- character codes.
pub record ProtocolAddress : Type 0 where
  pub name : List ℕ
  pub device_id : ℕ

-- `format!("{}:{}", address.name(), u32::from(address.device_id()))`
unfoldable pub address_key : ProtocolAddress → List ℕ
address_key address = address.name ++ (b':' ∷ decimal address.device_id)

no_colon : (n ds : List ℕ) (e : List ℕ) → AllDigits ds → ds ≡ n ++ (b':' ∷ e) → ⊥
no_colon [] [] e h p = cc
no_colon (x ∷ n) [] e h p = cc
no_colon [] (d ∷ ds) e h p = ground arith
no_colon (x ∷ n) (d ∷ ds) e h p = no_colon n ds e h.2 (ground arith)

split_at_colon :
    (m n : List ℕ) (ds es : List ℕ)
    → AllDigits ds
    → AllDigits es
    → m ++ (b':' ∷ ds) ≡ n ++ (b':' ∷ es)
    → (m ≡ n) × (ds ≡ es)
split_at_colon [] [] ds es hd he p = (refl, ground arith)
split_at_colon [] (y ∷ n) ds es hd he p = absurd (no_colon n ds es hd (ground arith))
split_at_colon (x ∷ m) [] ds es hd he p = absurd (no_colon m es ds he (ground arith))
split_at_colon (x ∷ m) (y ∷ n) ds es hd he p =
    let (a, b) = split_at_colon m n ds es hd he (ground arith) in (ground arith, b)

-- Two addresses with one key are one address, also where names hold colons: no two peers or
-- devices share an entry.
pub address_key-injective : (a b : ProtocolAddress) → address_key a ≡ address_key b → a ≡ b
unfolding address_key
address_key-injective a b h =
    let (e, f) =
      split_at_colon a.name b.name (decimal a.device_id) (decimal b.device_id)
        (decimal-AllDigits a.device_id) (decimal-AllDigits b.device_id) h in
    let g = decimal-injective a.device_id b.device_id f in
    λ i. record { name = e i; device_id = g i }

-- Addresses compare by name and device, as do the columns of a table: the text of a number compares
-- as the number with the column.
abbrev pub address_eqb : ProtocolAddress → ProtocolAddress → Bool
address_eqb a b = list_eqb a.name b.name && nat_eqb a.device_id b.device_id

pub address_eqb_iff : (a b : ProtocolAddress) → (address_eqb a b ≡ true) ↔ (a ≡ b)
address_eqb_iff a b = (
  λ h.
      let e : a.name ≡ b.name = (list_eqb_iff a.name b.name).0 (ground arith) in
      let f : a.device_id ≡ b.device_id = ground arith in
      λ i. record { name = e i; device_id = f i },
  λ h.
      let e = (list_eqb_iff a.name b.name).1 (ap (λ (c : ProtocolAddress). c.name) h) in
      ground (arith, e, ap (λ (c : ProtocolAddress). c.device_id) h),
)

instance abbrev pub address_eq : Eq ProtocolAddress
address_eq = record { is_equal = address_eqb; is_equal_iff = address_eqb_iff }
