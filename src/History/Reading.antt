-- ===== src/History/Reading.antt =====
-- The queries of message_history.rs, and what deleting a conversation does to them.
use radix_relay.Prelude.{
  ℕ, zero, suc, ◌%◌, ◌≤◌, ◌≡◌, ◌≢◌, refl, ap, sym, ◌∙◌, inl, inr, Bool, true, false, Option, none,
  some, List, [], ◌∷◌, map, length, String, nat_eq, string_eq, Bool-cases, Option-cases, arith,
}
use radix_relay.Exec.{ok, u32_mod}
use radix_relay.Sql.Tables.{
  select, query_row, delete, count, All, select-delete, count-delete_self, query_row-delete_self,
}
use radix_relay.Sql.Sorting.{
  page, OrderBy, OrderByLaws, All-count, count-All, IsOrdered, IsOrdered-take, IsOrdered-drop,
  All-take, All-drop, take, drop,
}
use radix_relay.Database.{ConversationRow, MessageRow, Database}
use radix_relay.History.{
  of_peer, has_id, of_conversation, newer, read_message, get_conversation_messages,
  get_unread_count, delete_conversation,
}
use radix_relay.History.Invariant.{IsValid}
use radix_relay.History.Peers.{apart, delete_self, delete_other}

module _ (u : List ℕ → Option String) (O : OrderBy MessageRow (newer u)) where
  get_conversation_messages-eq :
      (s : Database) (fp : String) (limit offset : ℕ) {c : ConversationRow}
      → query_row (of_peer fp) s.conversations ≡ some c
      → get_conversation_messages u O s fp limit offset
        ≡ ok (
            map
              (read_message u)
              (page limit offset (O.sort (select (of_conversation c.id) s.messages))))
  unfolding get_conversation_messages
  get_conversation_messages-eq s fp limit offset e = rw (e, get_conversation_messages)

  length-take_le : (n : ℕ) (xs : List MessageRow) → length (take n xs) ≤ n
  length-take_le zero xs = omega arith
  length-take_le (suc n) [] = omega arith
  length-take_le (suc n) (x ∷ xs) = omega (arith, length-take_le n xs)

  All-select : (p : MessageRow → Bool) (xs : List MessageRow) → All (λ m. p m ≡ true) (select p xs)
  unfolding select
  All-select p [] = tt
  All-select p (x ∷ xs) = elim (Bool-cases (p x)) [
    | inl e ↦ rw e (e, All-select p xs)
    | inr e ↦ rw e (All-select p xs)
  ]

  -- Whatever order the database takes among equal times, a query for messages of a conversation that
  -- is there returns at most as many as were asked for, all of that conversation, the newest first.
  pub get_conversation_messages-IsOrdered :
      (s : Database) (fp : String) (limit offset : ℕ) {c : ConversationRow}
      → OrderByLaws O
      → query_row (of_peer fp) s.conversations ≡ some c
      → (rows : List MessageRow) × (get_conversation_messages u O s fp limit offset
          ≡ ok (map (read_message u) rows))
        × (length rows ≤ limit)
        × All (λ m. of_conversation c.id m ≡ true) rows
        × IsOrdered (newer u) rows
  unfolding page
  get_conversation_messages-IsOrdered s fp limit offset {c} laws e =
      let found = select (of_conversation c.id) s.messages in
      let all = O.sort found in
      let ordered = laws.in_order found in
      let mine = All-count (of_conversation c.id) all (
        laws.same_rows _ found
        ∙ count-All (of_conversation c.id) found (All-select (of_conversation c.id) s.messages)) in
      (
        take limit (drop offset all),
        get_conversation_messages-eq s fp limit offset e,
        length-take_le limit (drop offset all),
        All-take _ limit (drop offset all) (All-drop _ offset all mine),
        IsOrdered-take (newer u) limit (drop offset all)
            (IsOrdered-drop (newer u) offset all ordered),
      )

pub get_unread_count-found :
    (s : Database) (fp : String) {c : ConversationRow}
    → query_row (of_peer fp) s.conversations ≡ some c
    → get_unread_count s fp ≡ ok (c.unread_count % u32_mod)
unfolding get_unread_count
get_unread_count-found s fp e = rw (e, get_unread_count)

get_unread_count-none :
    (s : Database) (fp : String)
    → query_row (of_peer fp) s.conversations ≡ none
    → get_unread_count s fp ≡ ok 0
unfolding get_unread_count
get_unread_count-none s fp e = rw (e, get_unread_count)

pub get_unread_count-eq :
    (s t : Database) (fp : String)
    → query_row (of_peer fp) s.conversations ≡ query_row (of_peer fp) t.conversations
    → get_unread_count s fp ≡ get_unread_count t fp
unfolding get_unread_count
get_unread_count-eq s t fp e = rw (e, get_unread_count)

get_conversation_messages-none :
    (u : List ℕ → Option String) (O : OrderBy MessageRow (newer u)) (s : Database) (fp : String)
    (limit offset : ℕ)
    → query_row (of_peer fp) s.conversations ≡ none
    → get_conversation_messages u O s fp limit offset ≡ ok []
unfolding get_conversation_messages
get_conversation_messages-none u O s fp limit offset e = rw (e, get_conversation_messages)

-- The messages of another peer, after the messages and the row of a conversation have gone.
others_messages :
    (u : List ℕ → Option String) (O : OrderBy MessageRow (newer u)) (s : Database) (fp gp : String)
    (limit offset : ℕ) (c : ConversationRow)
    → IsValid s
    → query_row (of_peer fp) s.conversations ≡ some c
    → gp ≢ fp
    → get_conversation_messages u O
        (record s {
          messages = delete (of_conversation c.id) s.messages;
          conversations = delete (has_id c.id) s.conversations;
        })
        gp
        limit
        offset
      ≡ get_conversation_messages u O s gp limit offset
others_messages u O s fp gp limit offset c v e ne =
    let t = record s {
      messages = delete (of_conversation c.id) s.messages;
      conversations = delete (has_id c.id) s.conversations;
    } in
    let same = delete_other s fp c v e gp ne in
    elim (Option-cases (query_row (of_peer gp) s.conversations)) [
      | inl absent ↦
          get_conversation_messages-none u O t gp limit offset (same ∙ absent)
          ∙ sym (get_conversation_messages-none u O s gp limit offset absent)
      | inr (d, found) ↦
          let ids : has_id c.id d ≡ false = apart s fp gp v e found ne in
          get_conversation_messages-eq u O t gp limit offset (same ∙ found)
          ∙ ap (λ (l : List MessageRow). ok (map (read_message u) (page limit offset (O.sort l))))
              (select-delete (of_conversation c.id) (of_conversation d.id) s.messages
                (λ m h. ground arith))
          ∙ sym (get_conversation_messages-eq u O s gp limit offset found)
    ]

-- Deleting a conversation of a valid database removes its row and every message of it, after which
-- the peer has no conversation, no messages and none unread; the conversations, messages and unread
-- counts of other peers are what they were.
pub delete_conversation_removes :
    (u : List ℕ → Option String) (O : OrderBy MessageRow (newer u)) (fp : String) (s : Database)
    {c : ConversationRow}
    → IsValid s
    → query_row (of_peer fp) s.conversations ≡ some c
    → let (r, s') = delete_conversation fp s in
      (r ≡ ok tt)
      × (query_row (of_peer fp) s'.conversations ≡ none)
      × (query_row (has_id c.id) s'.conversations ≡ none)
      × (count (of_conversation c.id) s'.messages ≡ 0)
      × (get_unread_count s' fp ≡ ok 0)
      × ((limit offset : ℕ) → get_conversation_messages u O s' fp limit offset ≡ ok [])
      × ((gp : String) (limit offset : ℕ)
          → gp ≢ fp
          → (query_row (of_peer gp) s'.conversations ≡ query_row (of_peer gp) s.conversations)
            × (get_conversation_messages u O s' gp limit offset
                ≡ get_conversation_messages u O s gp limit offset)
            × (get_unread_count s' gp ≡ get_unread_count s gp))
unfolding delete_conversation
delete_conversation_removes u O fp s {c} v e =
    let t = record s {
      messages = delete (of_conversation c.id) s.messages;
      conversations = delete (has_id c.id) s.conversations;
    } in
    rw (e, delete_conversation)
      (
        refl,
        delete_self s fp c v e,
        query_row-delete_self (has_id c.id) s.conversations,
        count-delete_self (of_conversation c.id) s.messages,
        get_unread_count-none t fp (delete_self s fp c v e),
        λ limit offset.
            get_conversation_messages-none u O t fp limit offset (delete_self s fp c v e),
        λ gp limit offset ne. (
          delete_other s fp c v e gp ne,
          others_messages u O s fp gp limit offset c v e ne,
          get_unread_count-eq t s gp (delete_other s fp c v e gp ne),
        ),
      )
