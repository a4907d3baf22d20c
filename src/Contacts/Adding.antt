-- ===== src/Contacts/Adding.antt =====
-- Adding a contact in contact_manager.rs: what INSERT OR REPLACE does to the contacts, and to the
-- history of a contact that is there already.
use package.text.Mathlib.TextEquality.{eq_iff}
use package.text.Mathlib.TextPositions.{eq_refl}
use radix_relay.Prelude.{
  ℕ, ◌≡◌, ◌≢◌, refl, ap, ◌∙◌, inl, inr, Bool, true, false, none, some, List, [], ◌∷◌, ◌++◌, String,
  nat_eq, string_eq, is_some, Bool-cases, arith,
}
use radix_relay.Exec.{ok}
use radix_relay.Sql.Tables.{
  select, query_row, delete, count, All, All-map, query_row-append, query_row-append_some,
  query_row-holds,
}
use radix_relay.Sql.Unique.{
  IsUnique, IsUnique-append, IsUnique-delete, query_row-found, query_row-delete_kept,
}
use radix_relay.Database.{ContactRow, ConversationRow, MessageRow, Database}
use radix_relay.NostrIdentity.{IdentityApi, derive_public_key_from_peer_identity}
use radix_relay.History.{of_contact, of_peer, has_id, of_conversation}
use radix_relay.Contacts.{
  conflicts, first_seen_or, is_orphan, is_lost, cascade, replace_contact,
  generate_identity_fingerprint_from_key, add_contact_from_identity_key,
}

-- Fingerprints and Nostr keys of contacts are unique, as the table demands.
pub record IsContactTable (contacts : List ContactRow) : Type 0 where
  pub unique_fingerprints : IsUnique (λ (c : ContactRow). c.rdx_fingerprint) contacts
  pub unique_pubkeys : IsUnique (λ (c : ContactRow). c.nostr_pubkey) contacts

-- The contact `fp` is there with the Nostr key `pk`; when it was first seen is kept if it was there
-- before, and is `now` otherwise; contacts with another fingerprint and another key are unchanged.
pub record IsAdded (fp pk : String) (now : ℕ) (contacts added : List ContactRow) : Type 0 where
  pub valid : IsContactTable added
  pub row : ContactRow
  pub found : query_row (of_contact fp) added ≡ some row
  pub pubkey : row.nostr_pubkey ≡ pk
  pub first : row.first_seen ≡ first_seen_or now (query_row (of_contact fp) contacts)
  pub updated : row.last_updated ≡ now
  pub others :
      (gp : String) {d : ContactRow}
      → query_row (of_contact gp) contacts ≡ some d
      → gp ≢ fp
      → d.nostr_pubkey ≢ pk
      → query_row (of_contact gp) added ≡ some d

All-deleted : {A : Type 0} (p : A → Bool) (xs : List A) → All (λ x. p x ≡ false) (delete p xs)
unfolding delete
All-deleted p [] = tt
All-deleted p (x ∷ xs) = elim (Bool-cases (p x)) [
  | inl e ↦ rw e (All-deleted p xs)
  | inr e ↦ rw e (e, All-deleted p xs)
]

-- No row that is left conflicts with the new one.
append-IsContactTable :
    (c d : ContactRow) (cs : List ContactRow)
    → d.rdx_fingerprint ≡ c.rdx_fingerprint
    → d.nostr_pubkey ≡ c.nostr_pubkey
    → IsContactTable cs
    → IsContactTable (delete (conflicts c) cs ++ d ∷ [])
append-IsContactTable c d cs fp pk v =
    let left = delete (conflicts c) cs in
    record {
      unique_fingerprints =
          IsUnique-append (λ (x : ContactRow). x.rdx_fingerprint) left d
            (IsUnique-delete (λ (x : ContactRow). x.rdx_fingerprint) (conflicts c) cs
              v.unique_fingerprints)
            (All-map _ _ left
              (λ x h. λ e. ground (arith, eq_iff x.rdx_fingerprint c.rdx_fingerprint))
              (All-deleted (conflicts c) cs));
      unique_pubkeys =
          IsUnique-append (λ (x : ContactRow). x.nostr_pubkey) left d
            (IsUnique-delete (λ (x : ContactRow). x.nostr_pubkey) (conflicts c) cs v.unique_pubkeys)
            (All-map _ _ left (λ x h. λ e. ground (arith, eq_iff x.nostr_pubkey c.nostr_pubkey))
              (All-deleted (conflicts c) cs));
    }

-- Rows that are all deleted, or all selected.
module _ {A : Type 0} (p q : A → Bool) (implied : (x : A) → q x ≡ true → p x ≡ true) where
  query_row-delete_all : (xs : List A) → query_row q (delete p xs) ≡ none
  unfolding query_row delete
  query_row-delete_all [] = refl
  query_row-delete_all (x ∷ xs) = ground (arith, implied x, query_row-delete_all xs)

  count-delete_all : (xs : List A) → count q (delete p xs) ≡ 0
  unfolding count delete
  count-delete_all [] = refl
  count-delete_all (x ∷ xs) = ground (arith, implied x, count-delete_all xs)

  query_row-select : (xs : List A) → query_row q (select p xs) ≡ query_row q xs
  unfolding query_row select
  query_row-select [] = refl
  query_row-select (x ∷ xs) = ground (arith, implied x, query_row-select xs)

cascade-contacts :
    (replaced : List ContactRow) (s : Database) → (cascade replaced s).contacts ≡ s.contacts
unfolding cascade
cascade-contacts replaced s = elim (Bool-cases s.foreign_keys) [ inl e ↦ rw e | inr e ↦ rw e ]

pub replace_contact-IsAdded :
    (c : ContactRow) (now : ℕ) (s : Database)
    → c.first_seen ≡ now
    → c.last_updated ≡ now
    → IsContactTable s.contacts
    → IsAdded c.rdx_fingerprint c.nostr_pubkey now s.contacts (replace_contact c s).contacts
unfolding replace_contact
replace_contact-IsAdded c now s seen updated v =
    let row = record c {
      first_seen = first_seen_or c.first_seen (query_row (of_contact c.rdx_fingerprint) s.contacts);
    } in
    let left = delete (conflicts c) s.contacts in
    record {
      valid = append-IsContactTable c row s.contacts refl refl v;
      row = row;
      found =
          query_row-append (of_contact c.rdx_fingerprint) left (row ∷ []) (
            query_row-delete_all (conflicts c) (of_contact c.rdx_fingerprint) (λ x h. ground arith)
              s.contacts)
          ∙ (unfold query_row in rw (eq_refl c.rdx_fingerprint));
      pubkey = refl;
      first =
          ap (λ (n : ℕ). first_seen_or n (query_row (of_contact c.rdx_fingerprint) s.contacts))
            seen;
      updated = updated;
      others = λ gp {d} e ne nk.
          let same : d.rdx_fingerprint ≡ gp =
            (eq_iff d.rdx_fingerprint gp).0 (query_row-holds (of_contact gp) s.contacts e) in
          query_row-append_some (of_contact gp) left (row ∷ []) (
            query_row-delete_kept (conflicts c) (of_contact gp) s.contacts e (
              ground (
                arith,
                eq_iff d.rdx_fingerprint c.rdx_fingerprint,
                eq_iff d.nostr_pubkey c.nostr_pubkey,
              )));
    }

-- The conversation with a contact that is replaced, and its messages, go with it.
replaced_history :
    (fp : String) (c : ContactRow) (s : Database) {d : ContactRow} {v : ConversationRow}
    → c.rdx_fingerprint ≡ fp
    → query_row (of_contact fp) s.contacts ≡ some d
    → query_row (of_peer fp) s.conversations ≡ some v
    → let replaced = select (conflicts c) s.contacts in
      (query_row (of_peer fp) (delete (is_orphan replaced) s.conversations) ≡ none)
      × (count
            (of_conversation v.id)
            (delete (is_lost (select (is_orphan replaced) s.conversations)) s.messages)
          ≡ 0)
replaced_history fp c s {d} {v} same there open_with =
    let replaced = select (conflicts c) s.contacts in
    let listed : query_row (of_contact fp) replaced ≡ some d =
      query_row-select (conflicts c) (of_contact fp)
        (λ x h.
          ground (arith, eq_iff x.rdx_fingerprint fp, eq_iff x.rdx_fingerprint c.rdx_fingerprint))
        s.contacts
      ∙ there in
    let orphan : (x : ConversationRow) → of_peer fp x ≡ true → is_orphan replaced x ≡ true = λ x h.
      let e : x.rdx_fingerprint ≡ fp = (eq_iff x.rdx_fingerprint fp).0 h in
      ap (λ (g : String). is_some (query_row (of_contact g) replaced)) e ∙ ap is_some listed in
    let orphans = select (is_orphan replaced) s.conversations in
    let (w, found) =
      query_row-found (of_peer fp) (has_id v.id) orphans
        (query_row-select (is_orphan replaced) (of_peer fp) orphan s.conversations ∙ open_with)
        (ground arith) in
    let lost : (m : MessageRow) → of_conversation v.id m ≡ true → is_lost orphans m ≡ true = λ m h.
      let e : m.conversation_id ≡ v.id = ground arith in
      ap (λ (i : ℕ). is_some (query_row (has_id i) orphans)) e ∙ ap is_some found in
    (
      query_row-delete_all (is_orphan replaced) (of_peer fp) orphan s.conversations,
      count-delete_all (is_lost orphans) (of_conversation v.id) lost s.messages,
    )

module _ (I : IdentityApi) where
  -- If a Nostr key can be derived from the identity key, adding it to a table of unique contacts
  -- returns its fingerprint, under which the contact is then found, with the derived key; the table
  -- stays unique, the time when the contact was first seen is kept, and contacts with another
  -- fingerprint and another key are unchanged.
  pub add_contact_from_identity_key-IsAdded :
      (now : ℕ) (k : I.IdentityKey) (s : Database) {pk : I.PublicKey}
      → IsContactTable s.contacts
      → derive_public_key_from_peer_identity I k ≡ ok pk
      → let (r, s') = add_contact_from_identity_key I now k s in
        let fp = generate_identity_fingerprint_from_key I k in
        (r ≡ ok fp) × IsAdded fp (I.to_hex pk) now s.contacts s'.contacts
  unfolding add_contact_from_identity_key
  add_contact_from_identity_key-IsAdded now k s v e =
      rw e (refl, replace_contact-IsAdded _ now s refl refl v)

  -- Where SQLite enforces foreign keys, adding a contact that is there already deletes its
  -- conversation, and every message of that conversation.
  pub add_contact_from_identity_key-drops_history :
      (now : ℕ) (k : I.IdentityKey) (s : Database) {pk : I.PublicKey} {d : ContactRow}
      {v : ConversationRow}
      → let fp = generate_identity_fingerprint_from_key I k in
        s.foreign_keys ≡ true
        → derive_public_key_from_peer_identity I k ≡ ok pk
        → query_row (of_contact fp) s.contacts ≡ some d
        → query_row (of_peer fp) s.conversations ≡ some v
        → let s' = (add_contact_from_identity_key I now k s).1 in
          (query_row (of_peer fp) s'.conversations ≡ none)
          × (count (of_conversation v.id) s'.messages ≡ 0)
  unfolding add_contact_from_identity_key replace_contact cascade
  add_contact_from_identity_key-drops_history now k s {pk = pk} enforced e there open_with =
      let fp = generate_identity_fingerprint_from_key I k in
      let added : ContactRow = record {
        rdx_fingerprint = fp;
        nostr_pubkey = I.to_hex pk;
        user_alias = none;
        signal_identity_key = I.serialize k;
        first_seen = now;
        last_updated = now;
      } in
      rw (e, enforced) (replaced_history fp added s refl there open_with)
