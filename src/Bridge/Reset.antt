-- ===== src/Bridge/Reset.antt =====
-- What the bridge forgets with its identity, and what it makes in its place.
use radix_relay.Prelude.{
  ℕ, ◌≤◌, ◌<◌, ◌≡◌, refl, ap, ◌∙◌, inl, inr, Bool, ◌||◌, none, some, if◌then◌else◌, ◌==◌, ltb,
  nat_eq, string_eq, Bool-cases, arith,
}
use radix_relay.Exec.{Error, ok, err, pure, continue}
use radix_relay.Memory.Address.{ProtocolAddress, address_eq}
use radix_relay.StorageTrait.{StorageContainer, StorageContainerLaws, Storage}
use radix_relay.StorageTrait.Runs.{find-clear}
use radix_relay.StorageTrait.Peers.{SessionOps, SessionLaws, PeerOps, PeerLaws}
use radix_relay.Keys.{KeyApi, KeyApiLaws, generate_identity_key_pair}
use radix_relay.Bridge.{IdentityStore, ensure_identity, ensure_keys_exist}
use radix_relay.Bridge.Startup.{ensure_keys_exist-ready}
use radix_relay.KeyRotation.Replenish.{drawn}
use radix_relay.Bridge.Remade.{record_of, IsEmptied, ensure_keys_exist-IsRemade}
use radix_relay.Bridge.Sessions.{clear_both, clear_all_sessions, reset_identity}
use radix_relay.Bridge.Untouched.{ensure_keys_exist-peers}

-- What a backend does with the local identity, for both of its traits.
pub record LocalLaws {C : StorageContainer} {K : KeyApi C} (I : IdentityStore C K)
    (P : PeerOps C.Identities) : Type 0 where
  pub pair-clear_local :
      (s : C.Identities)
      → (e : Error) × (I.get_identity_key_pair (P.clear_local_identity s).1 ≡ err e)
  pub set_pair-ok :
      (p : K.IdentityKeyPair) (s : C.Identities) → (I.set_local_identity_key_pair p s).0 ≡ ok tt
  pub set_registration-ok : (n : ℕ) (s : C.Identities) → (I.set_local_registration_id n s).0 ≡ ok tt
  pub pair-set :
      (p : K.IdentityKeyPair) (n : ℕ) (s : C.Identities)
      → I.get_identity_key_pair
          (I.set_local_registration_id n (I.set_local_identity_key_pair p s).1).1
        ≡ ok p
  pub peer-set :
      (p : K.IdentityKeyPair) (n : ℕ) (s : C.Identities) (a : ProtocolAddress)
      → P.get_peer_identity
          (I.set_local_registration_id n (I.set_local_identity_key_pair p s).1).1
          a
        ≡ P.get_peer_identity s a

module _ {C : StorageContainer} {S : SessionOps C.Sessions} {P : PeerOps C.Identities}
    (SL : SessionLaws S) (PL : PeerLaws P) where
  -- No session and no identity of a peer is left, and the key stores are what they were.
  record IsCleared (s t : Storage C) : Type 0 where
    no_session : (a : ProtocolAddress) → S.load_session t.session_store a ≡ ok none
    no_peer : (a : ProtocolAddress) → P.get_peer_identity t.identity_store a ≡ ok none
    same_pre_keys : t.pre_key_store ≡ s.pre_key_store
    same_signed : t.signed_pre_key_store ≡ s.signed_pre_key_store
    same_kyber : t.kyber_pre_key_store ≡ s.kyber_pre_key_store

  clear_both-eq :
      (s : Storage C)
      → clear_both S P s ≡ (
        ok tt,
        record s {
          session_store = (S.clear_all_sessions s.session_store).1;
          identity_store = (P.clear_all_identities s.identity_store).1;
        },
      )
  clear_both-eq s =
      rw (SL.clear_sessions-ok s.session_store, PL.clear_identities-ok s.identity_store)

  clear_all_sessions-IsCleared :
      (s : Storage C)
      → ((clear_all_sessions S P s).0 ≡ ok tt) × IsCleared s (clear_all_sessions S P s).1
  unfolding clear_all_sessions
  clear_all_sessions-IsCleared s =
      let n = S.session_count s.session_store in
      let m = P.identity_count s.identity_store in
      elim (Bool-cases (ltb 0 n || ltb 0 m)) [
        | inl some_left ↦
            rw (some_left, clear_both-eq s)
              (
                refl,
                record {
                  no_session = SL.load-clear s.session_store;
                  no_peer = PL.peer-clear s.identity_store;
                  same_pre_keys = refl;
                  same_signed = refl;
                  same_kyber = refl;
                },
              )
        | inr none_left ↦ rw none_left (
          refl,
          record {
            no_session = λ a. SL.load-empty s.session_store a (ground arith);
            no_peer = λ a. PL.peer-empty s.identity_store a (ground arith);
            same_pre_keys = refl;
            same_signed = refl;
            same_kyber = refl;
          },
        )
      ]

module _ (checks : Bool) {C : StorageContainer} (L : StorageContainerLaws C) (K : KeyApi C)
    (A : KeyApiLaws C L K) (I : IdentityStore C K) (S : SessionOps C.Sessions)
    (P : PeerOps C.Identities) (SL : SessionLaws S) (PL : PeerLaws P) (LL : LocalLaws I P) where
  -- The storage when the keys are made.
  abbrev emptied : Storage C → Storage C
  unfolding clear_all_sessions
  emptied s =
      let t = (clear_all_sessions S P s).1 in
      record t {
        pre_key_store = (C.pre_keys.clear_all t.pre_key_store).1;
        signed_pre_key_store = (C.signed_pre_keys.clear_all t.signed_pre_key_store).1;
        kyber_pre_key_store = (C.kyber_pre_keys.clear_all t.kyber_pre_key_store).1;
        identity_store = (P.clear_local_identity t.identity_store).1;
      }

  abbrev IsWellFormed : Storage C → Type 0
  IsWellFormed s =
      L.pre_key_laws.Valid s.pre_key_store
      × L.signed_pre_key_laws.laws.Valid s.signed_pre_key_store
      × L.kyber_pre_key_laws.laws.Valid s.kyber_pre_key_store

  emptied-IsEmptied :
      (s : Storage C) → IsWellFormed (clear_all_sessions S P s).1 → IsEmptied L K (emptied s)
  unfolding emptied
  emptied-IsEmptied s (v, w, x) =
      let t = (clear_all_sessions S P s).1 in
      let signed_laws = L.signed_pre_key_laws.laws in
      let kyber_laws = L.kyber_pre_key_laws.laws in
      record {
        pre_keys-Valid = L.pre_key_laws.clear-Valid t.pre_key_store v;
        signed-Valid = signed_laws.clear-Valid t.signed_pre_key_store w;
        kyber-Valid = kyber_laws.clear-Valid t.kyber_pre_key_store x;
        no_pre_keys = L.pre_key_laws.count-clear t.pre_key_store v;
        no_signed = signed_laws.count-clear t.signed_pre_key_store w;
        no_kyber = kyber_laws.count-clear t.kyber_pre_key_store x;
        pre_keys_gone = λ j. find-clear L.pre_key_laws t.pre_key_store j v;
        signed_gone = λ j. find-clear signed_laws t.signed_pre_key_store j w;
        kyber_gone = λ j. find-clear kyber_laws t.kyber_pre_key_store j x;
      }

  reset_identity-eq :
      (rng : ℕ → K.Rng) (now : ℕ) (s : Storage C)
      → IsWellFormed (clear_all_sessions S P s).1
      → let e = ensure_keys_exist checks K I rng now (emptied s) in
        reset_identity S P checks K I rng now s ≡ continue e.0 (λ p. pure tt) e.1
  unfolding reset_identity emptied
  reset_identity-eq rng now s v =
      let (cleared, c) = clear_all_sessions-IsCleared SL PL s in
      let t = (clear_all_sessions S P s).1 in
      rw (
        cleared,
        L.pre_key_laws.clear-ok t.pre_key_store v.0,
        L.signed_pre_key_laws.laws.clear-ok t.signed_pre_key_store v.1,
        L.kyber_pre_key_laws.laws.clear-ok t.kyber_pre_key_store v.2,
        PL.clear_local-ok t.identity_store,
      )

  ensure_identity-new :
      (rng : ℕ → K.Rng) (s : C.Identities)
      → let pair = (K.generate_identity (rng 0)).0 in
        let t = (P.clear_local_identity s).1 in
        ensure_identity K I rng t ≡ (
          ok pair,
          (I.set_local_registration_id
              (K.random_u32 (rng 1))
              (I.set_local_identity_key_pair pair t).1).1,
        )
  unfolding ensure_identity generate_identity_key_pair
  ensure_identity-new rng s =
      let pair = (K.generate_identity (rng 0)).0 in
      let t = (P.clear_local_identity s).1 in
      let (e, gone) = LL.pair-clear_local s in
      rw (
        gone,
        LL.set_pair-ok pair t,
        LL.set_registration-ok (K.random_u32 (rng 1)) (I.set_local_identity_key_pair pair t).1,
      )

  -- If a new identity key signs, resetting the identity of a well-formed storage returns: the
  -- identity key is the new one, no session and no identity of a peer is left, and the stores hold
  -- new keys only: the hundred pre-keys that are drawn, under the ids from 1 on, and one signed
  -- pre-key and one Kyber pre-key under the id 1.
  pub reset_identity-fresh :
      (rng : ℕ → K.Rng) (now : ℕ) (s : Storage C) {g h : K.Signature}
      → let pair = (K.generate_identity (rng 0)).0 in
        IsWellFormed s
        → (K.calculate_signature pair (K.generate (rng 3)).0 (K.generate (rng 3)).1).0 ≡ ok g
        → (K.calculate_kem_signature pair (K.generate_kem (rng 4)).0 (K.generate_kem (rng 4)).1).0
          ≡ ok h
        → let (r, s') = reset_identity S P checks K I rng now s in
          (r ≡ ok tt)
          × (I.get_identity_key_pair s'.identity_store ≡ ok pair)
          × ((a : ProtocolAddress) → S.load_session s'.session_store a ≡ ok none)
          × ((a : ProtocolAddress) → P.get_peer_identity s'.identity_store a ≡ ok none)
          × IsWellFormed s'
          × (5 ≤ C.pre_keys.count s'.pre_key_store)
          × (0 < C.signed_pre_keys.count s'.signed_pre_key_store)
          × (0 < C.kyber_pre_keys.count s'.kyber_pre_key_store)
          × ((j : ℕ)
              → L.pre_key_laws.find s'.pre_key_store j ≡ record_of K (drawn K 1 100 (rng 2)) j)
          × ((j : ℕ)
              → L.signed_pre_key_laws.laws.find s'.signed_pre_key_store j ≡ (
                  if 1 == j
                  then some (K.new_signed_pre_key 1 now (K.generate (rng 3)).0 g)
                  else none))
          × ((j : ℕ)
              → L.kyber_pre_key_laws.laws.find s'.kyber_pre_key_store j ≡ (
                  if 1 == j
                  then some (K.new_kyber_pre_key 1 now (K.generate_kem (rng 4)).0 h)
                  else none))
  unfolding emptied
  reset_identity-fresh rng now s {g} {h} v signed kem_signed =
      let pair = (K.generate_identity (rng 0)).0 in
      let t = (clear_all_sessions S P s).1 in
      let (cleared, c) = clear_all_sessions-IsCleared SL PL s in
      let w : IsWellFormed t =
        (rw c.same_pre_keys v.0, rw c.same_signed v.1, rw c.same_kyber v.2) in
      let local = (P.clear_local_identity t.identity_store).1 in
      let made = ensure_identity-new rng t.identity_store in
      let u = emptied s in
      let e = emptied-IsEmptied s w in
      let (r, v0, v1, v2, n0, n1, n2) =
        ensure_keys_exist-ready checks L K A I rng now u {pair = pair} {g = g} {h = h}
          (ap (λ x. x.0) made) e.pre_keys-Valid e.signed-Valid e.kyber-Valid (inr e.pre_keys_gone)
          signed kem_signed in
      let (only_pre_keys, only_signed, only_kyber) =
        ensure_keys_exist-IsRemade checks L K A I rng now u (ap (λ x. x.0) made) e signed
          kem_signed in
      let (sessions, identities) = ensure_keys_exist-peers checks K I rng now u in
      let new_identities = identities ∙ ap (λ x. x.1) made in
      let n = K.random_u32 (rng 1) in
      rw (reset_identity-eq rng now s w, r)
        (
          refl,
          ap I.get_identity_key_pair new_identities ∙ LL.pair-set pair n local,
          λ a. ap (λ x. S.load_session x a) sessions ∙ c.no_session a,
          λ a.
              ap (λ x. P.get_peer_identity x a) new_identities
              ∙ LL.peer-set pair n local a
              ∙ PL.peer-clear_local t.identity_store a
              ∙ c.no_peer a,
          (v0, v1, v2),
          n0,
          n1,
          n2,
          only_pre_keys,
          only_signed,
          only_kyber,
        )
