-- ===== src/Contacts/Soundness.antt =====
-- The tables of contacts and of the history together, under the calls of contact_manager.rs and
-- under the storing of messages, on every branch.
use radix_relay.Prelude.{
  ℕ, ◌<◌, ◌%◌, ◌^◌, ◌≡◌, refl, inl, inr, Bool, Option, List, String, is_some, Bool-cases,
  Option-cases, arith,
}
use radix_relay.Exec.{Exec, Outcome, ok, err, panic, continue, u64_mod}
use radix_relay.Sql.Tables.{query_row, update}
use radix_relay.Sql.Unique.{IsUnique-update}
use radix_relay.Database.{ContactRow, Database}
use radix_relay.Memory.Address.{ProtocolAddress}
use radix_relay.NostrIdentity.{IdentityApi, derive_public_key_from_peer_identity}
use radix_relay.History.{
  of_contact, store_incoming_message, store_outgoing_message, update_delivery_status,
  mark_conversation_read, mark_conversation_read_up_to, delete_message, delete_conversation,
}
use radix_relay.History.Invariant.{IsValid}
use radix_relay.History.Keeping.{
  Call, store_incoming, store_outgoing, set_status, mark_read, mark_read_up_to, remove_message,
  remove_conversation, after_call, after_call-IsValid, store_incoming-IsValid,
  store_outgoing-IsValid,
}
use radix_relay.Contacts.{
  alias_is, assign_alias, is_taken, lookup_contact, replace_contact, assign_contact_alias,
  add_contact_from_identity_key, add_contact_from_bundle,
}
use radix_relay.Contacts.Adding.{IsContactTable, replace_contact-IsAdded}
use radix_relay.Contacts.Validity.{cascade-IsValid, contacts-IsValid}

-- The history is valid, and no two contacts share a fingerprint or a Nostr key.
pub record IsSound (d : Database) : Type 0 where
  pub history : IsValid d
  pub contacts : IsContactTable d.contacts

replace_contact-IsSound :
    (c : ContactRow) (now : ℕ) (d : Database)
    → c.first_seen ≡ now
    → c.last_updated ≡ now
    → IsSound d
    → IsSound (replace_contact c d)
unfolding replace_contact
replace_contact-IsSound c now d seen updated v = record {
  history = contacts-IsValid _ _ (cascade-IsValid _ d v.history);
  contacts = (replace_contact-IsAdded c now d seen updated v.contacts).valid;
}

-- What starts with a result that leaves the tables alone.
lifted-IsSound :
    {A B : Type 0} (o : Outcome A) (f : A → Exec Database B) (d : Database)
    → IsSound d
    → ((a : A) → IsSound (f a d).1)
    → IsSound (continue o f d).1
lifted-IsSound (ok a) f d v w = w a
lifted-IsSound (err e) f d v w = v
lifted-IsSound panic f d v w = v

module _ (I : IdentityApi) where
  pub add_contact_from_identity_key-IsSound :
      (now : ℕ) (k : I.IdentityKey) (d : Database)
      → IsSound d
      → IsSound (add_contact_from_identity_key I now k d).1
  unfolding add_contact_from_identity_key
  add_contact_from_identity_key-IsSound now k d v =
      lifted-IsSound (derive_public_key_from_peer_identity I k) _ d v
        (λ pk. replace_contact-IsSound _ now d refl refl v)

  pub add_contact_from_bundle-IsSound :
      (read : List ℕ → Option (List ℕ)) (now : ℕ) (bytes : List ℕ) (user_alias : Option String)
      (d : Database)
      → IsSound d
      → IsSound (add_contact_from_bundle I read now bytes user_alias d).1
  unfolding add_contact_from_bundle
  add_contact_from_bundle-IsSound read now bytes user_alias d v = elim (Option-cases (read bytes)) [
    | inl unread ↦ rw unread v
    | inr (bundle, e) ↦ rw e (elim (Option-cases (I.decode bundle)) [
      | inl unknown ↦ rw unknown v
      | inr (k, f) ↦ rw f (
          lifted-IsSound (derive_public_key_from_peer_identity I k) _ d v
            (λ pk. replace_contact-IsSound _ now d refl refl v))
    ])
  ]

assigned-IsSound :
    (fp a : String) (now : ℕ) (d : Database)
    → IsSound d
    → IsSound (record d { contacts = update (of_contact fp) (assign_alias a now) d.contacts })
assigned-IsSound fp a now d v = record {
  history = contacts-IsValid d _ v.history;
  contacts = record {
    unique_fingerprints =
        IsUnique-update (λ (c : ContactRow). c.rdx_fingerprint) (of_contact fp) _ d.contacts
          (λ c. refl) v.contacts.unique_fingerprints;
    unique_pubkeys =
        IsUnique-update (λ (c : ContactRow). c.nostr_pubkey) (of_contact fp) _ d.contacts
          (λ c. refl) v.contacts.unique_pubkeys;
  };
}

pub assign_contact_alias-IsSound :
    {SessionRecord : Type 0} (load_session : ProtocolAddress → Outcome (Option SessionRecord))
    (now : ℕ) (identifier new_alias : String) (d : Database)
    → IsSound d
    → IsSound (assign_contact_alias load_session now identifier new_alias d).1
unfolding assign_contact_alias
assign_contact_alias-IsSound load_session now i a d v =
    lifted-IsSound (lookup_contact load_session d i) _ d v (λ contact.
      elim (Bool-cases (is_taken (query_row (alias_is a) d.contacts) contact.rdx_fingerprint)) [
        | inl taken ↦ rw taken v
        | inr free ↦
            rw free
              (elim (Bool-cases
                (is_some (query_row (of_contact contact.rdx_fingerprint) d.contacts))) [
                  | inl there ↦ rw there (assigned-IsSound contact.rdx_fingerprint a now d v)
                  | inr gone ↦ rw gone v
                ])
      ])

pub store_incoming-contacts :
    (fp : String) (ts : ℕ) (plaintext : List ℕ) (k g : Bool) (d : Database)
    → (store_incoming_message fp ts plaintext k g d).1.contacts ≡ d.contacts
unfolding store_incoming_message
store_incoming-contacts fp ts plaintext k g d = ground arith

store_outgoing-contacts :
    (fp : String) (ts : ℕ) (plaintext : List ℕ) (d : Database)
    → (store_outgoing_message fp ts plaintext d).1.contacts ≡ d.contacts
unfolding store_outgoing_message
store_outgoing-contacts fp ts plaintext d = ground arith

after_call-contacts : (c : Call) (d : Database) → (after_call c d).contacts ≡ d.contacts
unfolding after_call update_delivery_status mark_conversation_read mark_conversation_read_up_to
    delete_message delete_conversation
after_call-contacts (store_incoming fp ts plaintext k g) d =
    store_incoming-contacts fp (ts % u64_mod) plaintext k g d
after_call-contacts (store_outgoing fp ts plaintext) d =
    store_outgoing-contacts fp (ts % u64_mod) plaintext d
after_call-contacts (set_status i status) d = refl
after_call-contacts (mark_read fp) d = refl
after_call-contacts (mark_read_up_to fp t) d = ground arith
after_call-contacts (remove_message i) d = refl
after_call-contacts (remove_conversation fp) d = ground arith

-- A call on the history.
pub after_call-IsSound : (c : Call) (d : Database) → IsSound d → IsSound (after_call c d)
after_call-IsSound c d v = record {
  history = after_call-IsValid c d v.history;
  contacts = rw (after_call-contacts c d) v.contacts;
}

pub store_incoming-IsSound :
    (fp : String) (ts : ℕ) (plaintext : List ℕ) (k g : Bool) (d : Database)
    → ts < 2 ^ 64
    → IsSound d
    → IsSound (store_incoming_message fp ts plaintext k g d).1
store_incoming-IsSound fp ts plaintext k g d fits v = record {
  history = store_incoming-IsValid fp ts plaintext k g d fits v.history;
  contacts = rw (store_incoming-contacts fp ts plaintext k g d) v.contacts;
}

pub store_outgoing-IsSound :
    (fp : String) (ts : ℕ) (plaintext : List ℕ) (d : Database)
    → ts < 2 ^ 64
    → IsSound d
    → IsSound (store_outgoing_message fp ts plaintext d).1
store_outgoing-IsSound fp ts plaintext d fits v = record {
  history = store_outgoing-IsValid fp ts plaintext d fits v.history;
  contacts = rw (store_outgoing-contacts fp ts plaintext d) v.contacts;
}
