-- ===== src/Bridge/Untouched.antt =====
-- The parts of the storage that `ensure_keys_exist` of lib.rs leaves alone.
use radix_relay.Prelude.{ℕ, ◌≡◌, refl, ◌∙◌, Bool, nat_eq, string_eq}
use radix_relay.Exec.{Exec, Outcome, ok, err, panic, pure, continue, ◌>>=◌, ◌>>◌}
use radix_relay.Memory.Address.{address_eq}
use radix_relay.StorageTrait.{
  StorageContainer, Storage, on_pre_keys, on_signed_pre_keys, on_kyber_pre_keys,
}
use radix_relay.Keys.{KeyApi}
use radix_relay.Bridge.{
  IdentityStore, on_identities, ensure_identity, ensure_pre_keys, ensure_signed_pre_key,
  ensure_kyber_pre_key, ensure_keys_exist,
}

-- A part of the storage that neither of two steps touches is untouched by both.
module _ {S A B X : Type 0} (f : S → X) where
  continue-same :
      (r : Outcome A) (k : A → Exec S B) (s : S)
      → ((a : A) (t : S) → f (k a t).1 ≡ f t)
      → f (continue r k s).1 ≡ f s
  continue-same (ok a) k s h = h a s
  continue-same (err e) k s h = refl
  continue-same panic k s h = refl

  bind-same :
      (m : Exec S A) (k : A → Exec S B) (s : S)
      → ((a : A) (t : S) → f (k a t).1 ≡ f t)
      → f ((m >>= k) s).1 ≡ f (m s).1
  bind-same m k s h = continue-same (m s).0 k (m s).1 h

module _ (checks : Bool) {C : StorageContainer} (K : KeyApi C) (I : IdentityStore C K) where
  abbrev later_steps : (ℕ → K.Rng) → ℕ → K.IdentityKeyPair → Exec (Storage C) K.IdentityKeyPair
  later_steps rng now pair = do
    on_pre_keys (ensure_pre_keys checks K (rng 2))
    on_signed_pre_keys (ensure_signed_pre_key K pair (rng 3) now)
    on_kyber_pre_keys (ensure_kyber_pre_key K pair (rng 4) now)
    pure pair

  later_steps-same :
      {X : Type 0} (f : Storage C → X) (rng : ℕ → K.Rng) (now : ℕ) (pair : K.IdentityKeyPair)
      (s : Storage C)
      → ((t : Storage C) (u : C.pre_keys.Store) → f (record t { pre_key_store = u }) ≡ f t)
      → ((t : Storage C) (u : C.signed_pre_keys.Store)
          → f (record t { signed_pre_key_store = u }) ≡ f t)
      → ((t : Storage C) (u : C.kyber_pre_keys.Store)
          → f (record t { kyber_pre_key_store = u }) ≡ f t)
      → f (later_steps rng now pair s).1 ≡ f s
  later_steps-same f rng now pair s a b c =
      let m : Exec (Storage C) Unit = on_pre_keys (ensure_pre_keys checks K (rng 2)) in
      let n : Exec (Storage C) Unit =
        on_signed_pre_keys (ensure_signed_pre_key K pair (rng 3) now) in
      let o : Exec (Storage C) Unit = on_kyber_pre_keys (ensure_kyber_pre_key K pair (rng 4) now) in
      bind-same f m (λ u. n >>= λ v. o >>= λ w. pure pair) s
        (λ u t.
          bind-same f n (λ v. o >>= λ w. pure pair) t
            (λ v x. bind-same f o (λ w. pure pair) x (λ w y. refl) ∙ c x _)
          ∙ b t _)
      ∙ a s _

  -- `ensure_keys_exist` leaves the sessions, and of the identities what `ensure_identity` leaves.
  pub ensure_keys_exist-peers :
      (rng : ℕ → K.Rng) (now : ℕ) (s : Storage C)
      → ((ensure_keys_exist checks K I rng now s).1.session_store ≡ s.session_store)
        × ((ensure_keys_exist checks K I rng now s).1.identity_store
            ≡ (ensure_identity K I rng s.identity_store).1)
  unfolding ensure_keys_exist
  ensure_keys_exist-peers rng now s =
      let first : Exec (Storage C) K.IdentityKeyPair = on_identities (ensure_identity K I rng) in
      let rest : K.IdentityKeyPair → Exec (Storage C) K.IdentityKeyPair = later_steps rng now in
      (
        bind-same (λ (t : Storage C). t.session_store) first rest s
            (λ pair t.
              later_steps-same (λ x. x.session_store) rng now pair t (λ x u. refl) (λ x u. refl)
                (λ x u. refl)),
        bind-same (λ (t : Storage C). t.identity_store) first rest s
            (λ pair t.
              later_steps-same (λ x. x.identity_store) rng now pair t (λ x u. refl) (λ x u. refl)
                (λ x u. refl)),
      )
