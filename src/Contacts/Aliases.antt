-- ===== src/Contacts/Aliases.antt =====
-- The assignment of aliases in contact_manager.rs.
use package.text.Mathlib.TextEquality.{eq_iff}
use radix_relay.Prelude.{
  ℕ, ◌≡◌, ◌≢◌, refl, ap, sym, ◌∙◌, ◌⊎◌, inl, inr, Bool, true, false, ◌&&◌, Option, some, List, [],
  ◌∷◌, String, ◌==◌, nat_eq, string_eq, is_some, Bool-cases, Option-cases, arith,
}
use radix_relay.Exec.{Outcome, Error, ok, err, panic, invalid_input}
use radix_relay.Sql.Tables.{query_row, update, query_row-holds}
use radix_relay.Sql.Unique.{query_row-found}
use radix_relay.Database.{ContactRow, Database}
use radix_relay.Memory.Address.{ProtocolAddress}
use radix_relay.History.{of_contact}
use radix_relay.Contacts.{
  ContactInfo, alias_is, assign_alias, lookup_contact, is_taken, assign_contact_alias,
}

-- The contact has the alias.
abbrev has_alias : String → String → ContactRow → Bool
has_alias a fp c = alias_is a c && of_contact fp c

-- Two contacts with one alias are one contact.
abbrev pub HasOneAlias : List ContactRow → Type 0
HasOneAlias cs =
    (a fp gp : String)
    → is_some (query_row (has_alias a fp) cs) ≡ true
    → is_some (query_row (has_alias a gp) cs) ≡ true
    → fp ≡ gp

-- Who has an alias after it was assigned had it before, or was given it.
has_alias-update :
    (r a : String) (now : ℕ) (b fp : String) (cs : List ContactRow)
    → is_some (query_row (has_alias b fp) (update (of_contact r) (assign_alias a now) cs)) ≡ true
    → ((fp ≡ r) × (b ≡ a)) ⊎ (is_some (query_row (has_alias b fp) cs) ≡ true)
unfolding query_row update
has_alias-update r a now b fp [] h = cc
has_alias-update r a now b fp (c ∷ cs) h = elim (Bool-cases (of_contact r c)) [
  | inl e ↦ ground (
    arith,
    e,
    h,
    has_alias-update r a now b fp cs,
    eq_iff c.rdx_fingerprint r,
    eq_iff c.rdx_fingerprint fp,
    eq_iff a b,
  )
  | inr e ↦ ground (arith, e, h, has_alias-update r a now b fp cs)
]

Outcome-cases :
    {A : Type 0} (o : Outcome A)
    → ((a : A) × (o ≡ ok a)) ⊎ (((e : Error) × (o ≡ err e)) ⊎ (o ≡ panic))
Outcome-cases (ok a) = inl (a, refl)
Outcome-cases (err e) = inr (inl (e, refl))
Outcome-cases panic = inr (inr refl)

-- Who had the alias is the contact that is given it, unless it is taken.
not_taken :
    (a r gp : String) (cs : List ContactRow)
    → HasOneAlias cs
    → is_taken (query_row (alias_is a) cs) r ≡ false
    → is_some (query_row (has_alias a gp) cs) ≡ true
    → gp ≡ r
not_taken a r gp cs v free h = elim (Option-cases (query_row (has_alias a gp) cs)) [
  | inl e ↦ absurd (ground arith)
  | inr (c, e) ↦
      let holds = query_row-holds (has_alias a gp) cs e in
      let (d, found) = query_row-found (has_alias a gp) (alias_is a) cs e (ground arith) in
      let named = query_row-holds (alias_is a) cs found in
      let owner : d.rdx_fingerprint ≡ r = ground (arith, eq_iff d.rdx_fingerprint r) in
      let (w, own) =
        query_row-found (alias_is a) (has_alias a r) cs found
          (ground (arith, eq_iff d.rdx_fingerprint r)) in
      v a gp r h (ap is_some own)
]

update-HasOneAlias :
    (r a : String) (now : ℕ) (cs : List ContactRow)
    → HasOneAlias cs
    → is_taken (query_row (alias_is a) cs) r ≡ false
    → HasOneAlias (update (of_contact r) (assign_alias a now) cs)
update-HasOneAlias r a now cs v free b fp gp h k = elim (has_alias-update r a now b fp cs h) [
  | inl (e, f) ↦ elim (has_alias-update r a now b gp cs k) [
    | inl (e', f') ↦ e ∙ sym e'
    | inr old ↦ e ∙ sym (not_taken a r gp cs v free (rw (← f) old))
  ]
  | inr old ↦ elim (has_alias-update r a now b gp cs k) [
    | inl (e', f') ↦ not_taken a r fp cs v free (rw (← f') old) ∙ sym e'
    | inr old' ↦ v b fp gp old old'
  ]
]

module _ {SessionRecord : Type 0}
    (load_session : ProtocolAddress → Outcome (Option SessionRecord)) where
  -- Where no two contacts share an alias, none do after an alias has been assigned, whether the
  -- assignment succeeds or fails.
  pub assign_contact_alias-HasOneAlias :
      (now : ℕ) (identifier new_alias : String) (s : Database)
      → HasOneAlias s.contacts
      → HasOneAlias (assign_contact_alias load_session now identifier new_alias s).1.contacts
  unfolding assign_contact_alias
  assign_contact_alias-HasOneAlias now i a s v =
      elim (Outcome-cases (lookup_contact load_session s i)) [
        | inr (inl (e, failed)) ↦ rw failed v
        | inr (inr panicked) ↦ rw panicked v
        | inl (contact, found) ↦
            rw found
              (elim (Bool-cases
                (is_taken (query_row (alias_is a) s.contacts) contact.rdx_fingerprint)) [
                  | inl taken ↦ rw taken v
                  | inr free ↦
                      rw free
                        (elim (Bool-cases
                          (is_some (query_row (of_contact contact.rdx_fingerprint) s.contacts))) [
                            | inl there ↦
                                rw there (
                                  update-HasOneAlias contact.rdx_fingerprint a now s.contacts v
                                    free)
                            | inr gone ↦ rw gone v
                          ])
                ])
      ]

  -- An alias that another contact has is refused, and nothing is written.
  pub assign_contact_alias_refused :
      (now : ℕ) (identifier new_alias : String) (s : Database) {info : ContactInfo}
      {owner : ContactRow}
      → lookup_contact load_session s identifier ≡ ok info
      → query_row (alias_is new_alias) s.contacts ≡ some owner
      → owner.rdx_fingerprint ≢ info.rdx_fingerprint
      → assign_contact_alias load_session now identifier new_alias s ≡ (err invalid_input, s)
  unfolding assign_contact_alias
  assign_contact_alias_refused now i a s {info} {owner} found there ne =
      let other : (owner.rdx_fingerprint == info.rdx_fingerprint) ≡ false =
        ground (arith, eq_iff owner.rdx_fingerprint info.rdx_fingerprint) in
      rw (found, there, other)
