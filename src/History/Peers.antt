-- ===== src/History/Peers.antt =====
-- What an update of one conversation of message_history.rs does to queries by peer.
use package.text.Mathlib.TextEquality.{eq_iff}
use radix_relay.Prelude.{
  ◌≡◌, ◌≢◌, ap, sym, ◌∙◌, inl, inr, true, false, none, some, List, [], ◌∷◌, String, ◌==◌, nat_eq,
  string_eq, Bool-cases, Option-cases, arith,
}
use radix_relay.Sql.Tables.{
  query_row, update, delete, All-map, query_row-update, query_row-update-none, query_row-holds,
}
use radix_relay.Sql.Unique.{
  IsUnique, IsUnique-same, query_row-none_of, query_row-delete_kept, query_row-delete_none,
}
use radix_relay.Database.{ConversationRow, Database}
use radix_relay.History.{of_peer, has_id}
use radix_relay.History.Invariant.{IsValid}

-- Two queries for different peers find conversations with different ids.
pub apart :
    (s : Database) (fp gp : String) {c d : ConversationRow}
    → IsValid s
    → query_row (of_peer fp) s.conversations ≡ some c
    → query_row (of_peer gp) s.conversations ≡ some d
    → gp ≢ fp
    → has_id c.id d ≡ false
apart s fp gp {c} {d} v e found ne = elim (Bool-cases (has_id c.id d)) [
  | inl same ↦
      let one : d ≡ c =
        IsUnique-same (λ (r : ConversationRow). r.id) (of_peer gp) (of_peer fp) s.conversations
          v.unique_ids found e (ground arith) in
      let hd : of_peer gp d ≡ true = query_row-holds (of_peer gp) s.conversations found in
      let hc : of_peer fp c ≡ true = query_row-holds (of_peer fp) s.conversations e in
      absurd (
        ne (
          sym ((eq_iff d.rdx_fingerprint gp).0 hd)
          ∙ ap (λ (r : ConversationRow). r.rdx_fingerprint) one
          ∙ (eq_iff c.rdx_fingerprint fp).0 hc))
  | inr other ↦ other
]

-- An update by id of a conversation that was found by its peer, which leaves the peer alone.
module _ (s : Database) (fp : String) (f : ConversationRow → ConversationRow)
    (keep : (y : ConversationRow) → (f y).rdx_fingerprint ≡ y.rdx_fingerprint) where
  pub update_self :
      (c : ConversationRow)
      → query_row (of_peer fp) s.conversations ≡ some c
      → query_row (of_peer fp) (update (has_id c.id) f s.conversations) ≡ some (f c)
  update_self c e =
      let self : has_id c.id c ≡ true = ground arith in
      query_row-update (has_id c.id) (of_peer fp) f s.conversations
        (λ y. ap (λ (p : String). p == fp) (keep y)) e
      ∙ rw self

  pub update_other :
      (c : ConversationRow) (gp : String)
      → IsValid s
      → query_row (of_peer fp) s.conversations ≡ some c
      → gp ≢ fp
      → query_row (of_peer gp) (update (has_id c.id) f s.conversations)
        ≡ query_row (of_peer gp) s.conversations
  update_other c gp v e ne =
      let keeps = λ (y : ConversationRow). ap (λ (p : String). p == gp) (keep y) in
      elim (Option-cases (query_row (of_peer gp) s.conversations)) [
        | inl absent ↦
            query_row-update-none (has_id c.id) (of_peer gp) f s.conversations keeps absent
            ∙ sym absent
        | inr (d, found) ↦
            query_row-update (has_id c.id) (of_peer gp) f s.conversations keeps found
            ∙ rw (apart s fp gp v e found ne, found)
      ]

-- A deletion by id of a conversation that was found by its peer.
gone :
    (fp : String) (c : ConversationRow) (cs : List ConversationRow)
    → IsUnique (λ (r : ConversationRow). r.rdx_fingerprint) cs
    → query_row (of_peer fp) cs ≡ some c
    → query_row (of_peer fp) (delete (has_id c.id) cs) ≡ none
unfolding query_row delete
gone fp c [] un e = cc
gone fp c (d ∷ cs) un e = elim (Bool-cases (of_peer fp d)) [
  | inl mine ↦
      let same : d ≡ c = ground arith in
      let peer : d.rdx_fingerprint ≡ fp = (eq_iff d.rdx_fingerprint fp).0 mine in
      let rest : query_row (of_peer fp) cs ≡ none =
        query_row-none_of (of_peer fp) cs
          (All-map _ _ cs (λ r h. other_peer fp r.rdx_fingerprint (λ x. h (x ∙ sym peer))) un.0) in
      let deleted : has_id c.id d ≡ true = rw same (ground arith) in
      rw deleted (query_row-delete_none (has_id c.id) (of_peer fp) cs rest)
  | inr theirs ↦ ground (arith, gone fp c cs un.1)
]
  where
    other_peer : (fp gp : String) → gp ≢ fp → (gp == fp) ≡ false
    other_peer fp gp ne = ground (arith, eq_iff gp fp)

module _ (s : Database) (fp : String) (c : ConversationRow) (v : IsValid s)
    (e : query_row (of_peer fp) s.conversations ≡ some c) where
  pub delete_self : query_row (of_peer fp) (delete (has_id c.id) s.conversations) ≡ none
  delete_self = gone fp c s.conversations v.unique_peers e

  pub delete_other :
      (gp : String)
      → gp ≢ fp
      → query_row (of_peer gp) (delete (has_id c.id) s.conversations)
        ≡ query_row (of_peer gp) s.conversations
  delete_other gp ne = elim (Option-cases (query_row (of_peer gp) s.conversations)) [
    | inl absent ↦
        query_row-delete_none (has_id c.id) (of_peer gp) s.conversations absent ∙ sym absent
    | inr (d, found) ↦
        query_row-delete_kept (has_id c.id) (of_peer gp) s.conversations found
          (apart s fp gp v e found ne)
        ∙ sym found
  ]
