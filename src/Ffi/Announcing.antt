-- ===== src/Ffi/Announcing.antt =====
-- The announcement of a pre-key bundle, and what another node makes of it.
use package.text.Mathlib.TextEquality.{eq_iff}
use package.text.Mathlib.TextLemmas.{append-eq-nil_iff}
use radix_relay.Prelude.{
  ℕ, ◌<◌, ◌^◌, ◌≡◌, sym, ◌∙◌, ap, true, false, some, List, [], ◌∷◌, String, Eq, ◌==◌, string_eq,
  Bool-cases, inl, inr, Bool, arith,
}
use mathlib.Core.Bool.{false≢true}
use radix_relay.Prelude.Numerals.{to_text}
use radix_relay.Exec.{Outcome, ok}
use radix_relay.NostrIdentity.{
  IdentityApi, derive_from_signal_identity, derive_public_key_from_peer_identity,
}
use radix_relay.StorageTrait.{StorageContainer, Storage}
use radix_relay.Contacts.{generate_identity_fingerprint_from_key}
use radix_relay.Contacts.Adding.{IsContactTable, IsAdded}
use radix_relay.Bridge.Sessions.{first_device}
use radix_relay.Bridge.Messages.{SignalBridge}
use radix_relay.Bridge.Bundles.{
  BundleApi, SerializablePreKeyBundle, current_bundle, generate_pre_key_bundle,
}
use radix_relay.Bridge.Exchange.{BundleLaws, establish_session-generated}
use radix_relay.Bridge.Peering.{derive_nostr_keypair, identity_bytes}
use radix_relay.Bridge.Meeting.{
  add_contact_from_bundle-IsAdded, add_contact_and_establish_session-IsAdded,
}
use radix_relay.Bridge.Json.{JsonApi, JsonLaws, Base64}
use radix_relay.Bridge.Events.{
  EventApi, tags_of, sign_nostr_event, bundle_tags, bundle_tag_values, event_value, tag_value,
  generate_prekey_bundle_announcement,
}
use radix_relay.StorageTrait.Tables.{ok-injective}
use radix_relay.Ffi.{block_on}
use radix_relay.Ffi.Contacts.{
  alias_of, add_contact_and_establish_session, add_contact_and_establish_session_from_base64,
  extract_rdx_from_bundle_base64,
}
use radix_relay.Ffi.Nostr as Nostr
use radix_relay.Ffi.Signing.{IsEvent, texts_of-array}

module _ {C : StorageContainer} (P : BundleApi C) where
  -- Making a bundle changes nothing.
  generate_pre_key_bundle-same : (s : Storage C) → (generate_pre_key_bundle P s).1 ≡ s
  unfolding generate_pre_key_bundle
  generate_pre_key_bundle-same s = ground arith

fingerprint-ne-empty :
    (I : IdentityApi) (k : I.IdentityKey)
    → (generate_identity_fingerprint_from_key I k == "") ≡ false
unfolding generate_identity_fingerprint_from_key
fingerprint-ne-empty I k = elim (Bool-cases (generate_identity_fingerprint_from_key I k == "")) [
  | inr other ↦ other
  | inl same ↦
      let e =
        (append-eq-nil_iff.0 ((eq_iff (generate_identity_fingerprint_from_key I k) "").0 same)).0 in
      absurd (false≢true ((eq_iff "RDX:" "").1 e))
]

module _ {J : JsonApi} (L : JsonLaws J) where
  abbrev bundle_tag_items : String → String → ℕ → List J.Value
  bundle_tag_items fp version now =
      tag_value J "d" "radix_prekey_bundle_v1"
      ∷ tag_value J "rdx" fp
      ∷ tag_value J "radix_version" version
      ∷ tag_value J "bundle_timestamp" (to_text now)
      ∷ []

  announced-IsEvent :
      (fp version content pubkey event_id signature : String) (now : ℕ)
      → now < 2 ^ 64
      → IsEvent J
          (event_value J
            (pubkey, event_id, signature)
            now
            30078
            (bundle_tag_values J fp version now)
            content)
          now
          30078
          (bundle_tags fp version now)
          content
          pubkey
          event_id
          signature
  unfolding Nostr.tags_of
  announced-IsEvent fp version content pubkey event_id signature now small = record {
    at = ap J.as_u64 (L.get-object _ "created_at") ∙ L.u64_back now small;
    of_kind = ap J.as_u64 (L.get-object _ "kind") ∙ L.u64_back 30078 (omega arith);
    tag_items = bundle_tag_items fp version now;
    has_tags = ap J.as_array (L.get-object _ "tags") ∙ L.array_back _;
    same_tags = rw (
      texts_of-array L "d" "radix_prekey_bundle_v1",
      texts_of-array L "rdx" fp,
      texts_of-array L "radix_version" version,
      texts_of-array L "bundle_timestamp" (to_text now),
    );
    has_content = ap J.as_str (L.get-object _ "content") ∙ L.str_back content;
    by = ap J.as_str (L.get-object _ "pubkey") ∙ L.str_back pubkey;
    identified = ap J.as_str (L.get-object _ "id") ∙ L.str_back event_id;
    signed = ap J.as_str (L.get-object _ "sig") ∙ L.str_back signature;
  }

module _ {C : StorageContainer} {I : IdentityApi} (N : EventApi I) (J : JsonApi) (P : BundleApi C)
    (B : Base64) (get_identity_key_pair : C.Identities → Outcome I.IdentityKeyPair) where
  -- Where a bundle is made, its owner's Nostr key and the keys of this node are derived, the tags are
  -- accepted and the event is made, the announcement gives the ids of the bundle, and a JSON text
  -- that is read as the event that was signed: of kind 30078, at the time of the clock, with the
  -- owner's fingerprint, the version and the time in its tags, and with the bundle in base64 as its
  -- content. The keys are unchanged, and the owner is among the contacts under that fingerprint.
  pub generate_prekey_bundle_announcement-IsEvent :
      (L : JsonLaws J) (rng : N.Rng) (version : String) (now : ℕ) (s : SignalBridge C)
      (bytes : List ℕ) (i j k : ℕ) (b : SerializablePreKeyBundle) (key : I.IdentityKey)
      (pk : I.PublicKey) (pair : I.IdentityKeyPair) (keys : I.Keys) (tags : List N.Tag)
      (e : N.Event)
      → let fp = generate_identity_fingerprint_from_key I key in
        let content = B.encode bytes in
        now < 2 ^ 64
        → (generate_pre_key_bundle P s.storage).0 ≡ ok (bytes, i, j, k)
        → P.from_bytes bytes ≡ some b
        → I.decode b.identity_key ≡ some key
        → derive_public_key_from_peer_identity I key ≡ ok pk
        → IsContactTable s.database.contacts
        → get_identity_key_pair s.storage.identity_store ≡ ok pair
        → derive_from_signal_identity I pair ≡ ok keys
        → tags_of N (bundle_tags fp version now) ≡ ok tags
        → N.to_event rng 30078 content tags now keys ≡ some e
        → let (r, s') =
            generate_prekey_bundle_announcement N J get_identity_key_pair P B rng version now s in
          (text : J.Text) × (v : J.Value) × (r
            ≡ ok (record {
              announcement_json = text;
              pre_key_id = i;
              signed_pre_key_id = j;
              kyber_pre_key_id = k;
            }))
          × (J.from_str text ≡ some v)
          × IsEvent J v now 30078
              (bundle_tags fp version now)
              content
              (I.to_hex (I.public_key keys))
              (N.event_id e)
              (N.signature e)
          × (s'.storage ≡ s.storage)
          × IsAdded fp (I.to_hex pk) now s.database.contacts s'.database.contacts
  unfolding generate_prekey_bundle_announcement sign_nostr_event derive_nostr_keypair
  generate_prekey_bundle_announcement-IsEvent L rng version now s bytes i j k b key pk pair keys
        tags e small made there decoded derived table own ours parsed event =
      let fp = generate_identity_fingerprint_from_key I key in
      let (text, wrote) = L.written (
        event_value J (I.to_hex (I.public_key keys), N.event_id e, N.signature e) now 30078
          (bundle_tag_values J fp version now) (B.encode bytes)) in
      let (added, is_added) =
        add_contact_from_bundle-IsAdded I (λ x. identity_bytes (P.from_bytes x)) now bytes
          (some "self") s.database {key_bytes = b.identity_key} (ap identity_bytes there) decoded
          derived table in
      let same = generate_pre_key_bundle-same P s.storage in
      (
        text,
        _,
        rw (made, same, added, own, ours, parsed, event, wrote),
        L.text_back _ wrote,
        announced-IsEvent L fp version (B.encode bytes) _ _ _ now small,
        rw (made, same, added, own, ours, parsed, event, wrote),
        rw (made, same, added, own, ours, parsed, event, wrote) is_added,
      )

module _ (runtime : Bool) {C : StorageContainer} (I : IdentityApi) (P : BundleApi C) (B : Base64)
    (get_own_key : C.Identities → Outcome I.IdentityKey) ⦃eq : Eq I.IdentityKey⦄ where
  -- Where a runtime is given and base64 is read back, the content of an announcement is read by
  -- another node, with another identity and unique contacts, to the announcer's fingerprint, without
  -- a change; and adding it adds the announcer under that fingerprint, which is returned, and has
  -- libsignal establish a session with its first device from exactly the bundle that the announcer's
  -- storage has, if libsignal does.
  pub announced_bundle-IsAdded :
      (L : BundleLaws P) (s : Storage C) (r : SignalBridge C) (bytes : List ℕ) (i j k : ℕ)
      (bundle : P.PreKeyBundle) (b : SerializablePreKeyBundle) (key own : I.IdentityKey)
      (pk : I.PublicKey) (user_alias : String) (now : ℕ)
      → let fp = generate_identity_fingerprint_from_key I key in
        let session = P.establish_session_from_bundle (first_device fp) bundle r.storage in
        runtime ≡ true
        → B.decode (B.encode bytes) ≡ some bytes
        → (current_bundle P s).0 ≡ ok (bundle, i, j, k)
        → (generate_pre_key_bundle P s).0 ≡ ok (bytes, i, j, k)
        → P.from_bytes bytes ≡ some b
        → I.decode b.identity_key ≡ some key
        → derive_public_key_from_peer_identity I key ≡ ok pk
        → get_own_key r.storage.identity_store ≡ ok own
        → (key == own) ≡ false
        → IsContactTable r.database.contacts
        → session.0 ≡ ok tt
        → let (q, r') =
            add_contact_and_establish_session_from_base64 runtime I P get_own_key B
              (B.encode bytes)
              user_alias
              now
              r in
          (extract_rdx_from_bundle_base64 I P B (B.encode bytes) r ≡ (ok fp, r))
          × (q ≡ ok fp)
          × IsAdded fp (I.to_hex pk) now r.database.contacts r'.database.contacts
          × (r'.storage ≡ session.1)
  unfolding add_contact_and_establish_session_from_base64 add_contact_and_establish_session
      extract_rdx_from_bundle_base64 block_on
  announced_bundle-IsAdded L s r bytes i j k bundle b key own pk user_alias now there back current
        made read decoded derived ours other table established =
      let fp = generate_identity_fingerprint_from_key I key in
      let (found, is_current, establishes) =
        establish_session-generated P L s r.storage fp bytes i j k (fingerprint-ne-empty I key)
          made in
      let same : found ≡ bundle = ap (λ x. x.0) (ok-injective (sym is_current ∙ current)) in
      let eq_session =
        establishes
        ∙ ap (λ x. P.establish_session_from_bundle (first_device fp) x r.storage) same in
      let (q, is_added, stored) =
        add_contact_and_establish_session-IsAdded I P get_own_key bytes (alias_of user_alias) now r
          b key own pk read decoded ours other derived table
          (ap (λ x. x.0) eq_session ∙ established) in
      (
        rw (back, read, decoded),
        rw (back, there) q,
        rw (back, there) is_added,
        rw (back, there) (stored ∙ ap (λ x. x.1) eq_session),
      )
