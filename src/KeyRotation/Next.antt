-- ===== src/KeyRotation/Next.antt =====
-- Saving a record under the id after the highest one, as the rotations in key_rotation.rs do.
use radix_relay.Prelude.{
  ℕ, ◌+◌, ◌<◌, ◌≡◌, ◌≢◌, ◌∙◌, ap, inl, inr, Bool, Option, none, some, nat_eq, arith,
}
use radix_relay.Exec.{ok, add_u32, u32_mod}
use radix_relay.StorageTrait.{KeyStore, KeyStoreLaws}
use radix_relay.KeyRotation.{unwrap_or}

-- Every id in use leaves room for one more.
abbrev pub HasRoom : {T : KeyStore} → KeyStoreLaws T → T.Store → Type 0
HasRoom {T} L s = (i : ℕ) (k : T.KeyRecord) → L.find s i ≡ some k → i + 1 < u32_mod

-- A new record `k` under the new id `n`, and nothing else changed; `n` is the highest id.
pub record AddsNext {T : KeyStore} (L : KeyStoreLaws T) (s s' : T.Store) (n : ℕ) (k : T.KeyRecord)
    : Type 0 where
  pub is_new : L.find s n ≡ none
  pub saved : L.find s' n ≡ some k
  pub others : (j : ℕ) → j ≢ n → L.find s' j ≡ L.find s j
  pub counted : T.count s' ≡ T.count s + 1
  pub highest : T.max_id s' ≡ ok (some n)
  pub valid : L.Valid s'

module _ {T : KeyStore} (L : KeyStoreLaws T) where
  pub next-new :
      (s : T.Store) (m : Option ℕ) (i : ℕ)
      → L.Valid s
      → T.max_id s ≡ ok m
      → unwrap_or 0 m < i
      → L.find s i ≡ none
  next-new s none i v e h = L.max-none s i v e
  next-new s (some m) i v e h = L.max-above s m i v e h

  -- The highest id is the one under which something is found, with nothing above.
  pub max_id-eq :
      (s : T.Store) (n : ℕ) {k : T.KeyRecord}
      → L.Valid s
      → L.find s n ≡ some k
      → ((i : ℕ) → n < i → L.find s i ≡ none)
      → T.max_id s ≡ ok (some n)
  max_id-eq s n v here above = elim (L.max-ok s v) [
    | inl e ↦ absurd (ground (arith, L.max-none s n v e))
    | inr (m, e) ↦
        let (q, found) = L.max-found s m v e in
        let top : m ≡ n = ground (arith, above m, L.max-above s m n v e) in
        e ∙ ap (λ (x : ℕ). ok (some x)) top
  ]

  pub save-AddsNext :
      (s : T.Store) (m : Option ℕ) (k : T.KeyRecord)
      → L.Valid s
      → T.max_id s ≡ ok m
      → L.Fits (unwrap_or 0 m + 1) k
      → AddsNext L s (T.save (unwrap_or 0 m + 1) k s).1 (unwrap_or 0 m + 1) k
  save-AddsNext s m k v e fits =
      let n : ℕ = unwrap_or 0 m + 1 in
      let s' = (T.save n k s).1 in
      let v' : L.Valid s' = L.save-Valid n k s v fits in
      let fresh : L.find s n ≡ none = next-new s m n v e (omega arith) in
      let here : L.find s' n ≡ some k = ground (arith, L.find-save n k s n v fits) in
      record {
        is_new = fresh;
        saved = here;
        others = λ j ne. ground (arith, L.find-save n k s j v fits);
        counted = ground (arith, L.count-save n k s v fits);
        highest =
            max_id-eq s' n v' here
              (λ i above. ground (arith, L.find-save n k s i v fits, next-new s m i v e));
        valid = v';
      }

  -- With room, the next id does not overflow.
  pub add_u32-next :
      (checks : Bool) (s : T.Store) (m : Option ℕ)
      → L.Valid s
      → HasRoom L s
      → T.max_id s ≡ ok m
      → add_u32 checks (unwrap_or 0 m) 1 ≡ ok (unwrap_or 0 m + 1)
  unfolding add_u32
  add_u32-next checks s none v room e = ground arith
  add_u32-next checks s (some m) v room e =
      let (q, found) = L.max-found s m v e in ground (arith, room m q found)
