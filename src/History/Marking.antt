-- ===== src/History/Marking.antt =====
-- `mark_conversation_read_up_to` of message_history.rs: which messages it leaves as unread.
use radix_relay.Prelude.{
  ℕ, zero, suc, ◌%◌, ◌<◌, ◌≡◌, ◌≢◌, refl, ap, inl, inr, true, some, List, [], ◌∷◌, String, nat_eq,
  string_eq, Bool-cases, arith,
}
use radix_relay.Exec.{ok, u32_mod}
use radix_relay.Sql.{ℤ, pos, negsuc, as_i64, gtb, is_zero}
use radix_relay.Sql.Tables.{query_row, update, count}
use radix_relay.Database.{ConversationRow, MessageRow, Database}
use radix_relay.History.Types.{incoming, direction_code}
use radix_relay.History.{
  of_peer, has_id, is_unread_after, get_unread_count, mark_conversation_read_up_to,
}
use radix_relay.History.Invariant.{IsValid}
use radix_relay.History.Peers.{update_self, update_other}
use radix_relay.History.Reading.{get_unread_count-found, get_unread_count-eq}

-- A number is greater than another one.
abbrev pub IsAbove : ℤ → ℤ → Type 0
IsAbove (pos a) (pos b) = b < a
IsAbove (pos a) (negsuc b) = Unit
IsAbove (negsuc a) (pos b) = zero ≡ 1
IsAbove (negsuc a) (negsuc b) = a < b

-- An incoming message of the conversation, with a time after the given one.
pub record IsUnread (conversation_id up_to : ℕ) (m : MessageRow) : Type 0 where
  of_this : m.conversation_id ≡ conversation_id
  was_incoming : m.direction ≡ direction_code incoming
  later : IsAbove m.timestamp (as_i64 up_to)

-- `n` of the messages are unread.
pub data Unread (conversation_id up_to : ℕ) : List MessageRow → ℕ → Type 0 where
  none_left : Unread conversation_id up_to [] 0
  counted :
      {m : MessageRow} {ms : List MessageRow} {n : ℕ}
      → IsUnread conversation_id up_to m
      → Unread conversation_id up_to ms n
      → Unread conversation_id up_to (m ∷ ms) (suc n)
  passed :
      {m : MessageRow} {ms : List MessageRow} {n : ℕ}
      → ¬ IsUnread conversation_id up_to m
      → Unread conversation_id up_to ms n
      → Unread conversation_id up_to (m ∷ ms) n

gtb-IsAbove : (a b : ℤ) → gtb a b ≡ true → IsAbove a b
unfolding gtb
gtb-IsAbove (pos a) (pos b) e = ground arith
gtb-IsAbove (pos a) (negsuc b) e = tt
gtb-IsAbove (negsuc a) (pos b) e = cc
gtb-IsAbove (negsuc a) (negsuc b) e = ground arith

IsAbove-gtb : (a b : ℤ) → IsAbove a b → gtb a b ≡ true
unfolding gtb
IsAbove-gtb (pos a) (pos b) h = ground (arith, h)
IsAbove-gtb (pos a) (negsuc b) h = refl
IsAbove-gtb (negsuc a) (pos b) h = absurd (omega (arith, h))
IsAbove-gtb (negsuc a) (negsuc b) h = ground (arith, h)

is_zero-pos : (d : ℤ) → is_zero d ≡ true → d ≡ pos 0
is_zero-pos (pos n) e = ap pos (ground arith)
is_zero-pos (negsuc n) e = cc

-- The statement counts them.
count-Unread :
    (i up_to : ℕ) (ms : List MessageRow) → Unread i up_to ms (count (is_unread_after i up_to) ms)
unfolding count
count-Unread i up_to [] = none_left
count-Unread i up_to (m ∷ ms) = elim (Bool-cases (is_unread_after i up_to m)) [
  | inl e ↦ rw e (
      counted
        (record {
          of_this = ground arith;
          was_incoming = is_zero-pos m.direction (ground arith);
          later = gtb-IsAbove m.timestamp (as_i64 up_to) (ground arith);
        })
        (count-Unread i up_to ms))
  | inr e ↦ rw e (
      passed
        (λ h.
          let zero_code : is_zero m.direction ≡ true = ap is_zero h.was_incoming in
          let above = IsAbove-gtb m.timestamp (as_i64 up_to) h.later in
          let same = h.of_this in absurd (ground arith))
        (count-Unread i up_to ms))
]

-- After a valid conversation has been marked as read up to a time, its unread count is the number
-- of its incoming messages with a later time, in 32 bits; the messages are unchanged, and so are the
-- unread counts of other peers.
pub mark_conversation_read_up_to_counts :
    (fp : String) (up_to : ℕ) (s : Database) {c : ConversationRow}
    → IsValid s
    → query_row (of_peer fp) s.conversations ≡ some c
    → let (r, s') = mark_conversation_read_up_to fp up_to s in
      (r ≡ ok tt)
      × ((n : ℕ) × Unread c.id up_to s.messages n × (get_unread_count s' fp ≡ ok (n % u32_mod)))
      × (s'.messages ≡ s.messages)
      × ((gp : String) → gp ≢ fp → get_unread_count s' gp ≡ get_unread_count s gp)
unfolding mark_conversation_read_up_to
mark_conversation_read_up_to_counts fp up_to s {c} v e =
    let n = count (is_unread_after c.id up_to) s.messages in
    let set = λ (r : ConversationRow). record r { unread_count = n } in
    let t = record s { conversations = update (has_id c.id) set s.conversations } in
    rw (e, mark_conversation_read_up_to)
      (
        refl,
        (
          n,
          count-Unread c.id up_to s.messages,
          get_unread_count-found t fp {c = set c} (update_self s fp set (λ y. refl) c e),
        ),
        refl,
        λ gp ne. get_unread_count-eq t s gp (update_other s fp set (λ y. refl) c gp v e ne),
      )
