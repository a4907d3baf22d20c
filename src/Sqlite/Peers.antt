-- ===== src/Sqlite/Peers.antt =====
-- Tables by address against maps under the key of an address, and the stores of sessions in
-- sqlite_storage.rs and in memory_storage.rs side by side.
use radix_relay.Prelude.{
  ℕ, ◌≡◌, ◌⊎◌, refl, ap, ◌∙◌, sym, inl, inr, true, Option, none, some, List, [], ◌∷◌, ◌==◌,
  Bool-cases,
}
use radix_relay.Prelude.Assoc.{Assoc, lookup, insert, erase, lookup-insert, lookup-erase}
use radix_relay.Prelude.Decimal.{codes_eq, list_eqb_iff}
use radix_relay.Exec.{ok}
use radix_relay.Memory.Address.{
  ProtocolAddress, address_key, address_key-injective, address_eqb_iff, address_eq,
}
use radix_relay.Memory.Sessions.{MemorySessionStore}
use radix_relay.Memory.Sessions as MemorySessions
use radix_relay.Sqlite.{Codec, IsCodec}
use radix_relay.Sqlite.Sessions.{SqliteSessionStore}
use radix_relay.Sqlite.Sessions as SqliteSessions
use radix_relay.Sqlite.Laws.{Serializes}

-- Comparing addresses is comparing their keys.
address-eq-key : (a b : ProtocolAddress) → (a == b) ≡ (address_key a == address_key b)
address-eq-key a b = elim (Bool-cases (a == b)) [
  | inl same ↦
      let e : address_key a ≡ address_key b = ap address_key ((address_eqb_iff a b).0 same) in
      same ∙ sym ((list_eqb_iff (address_key a) (address_key b)).1 e)
  | inr other ↦ elim (Bool-cases (address_key a == address_key b)) [
    | inl same ↦
        let e = address_key-injective a b ((list_eqb_iff (address_key a) (address_key b)).0 same) in
        let f : (a == b) ≡ true = (address_eqb_iff a b).1 e in absurd cc
    | inr other' ↦ other ∙ sym other'
  ]
]

module _ {V : Type 0} (codec : Codec V) where
  -- What the table has for an address is what the map has, serialized.
  abbrev pub Alike : Option (List ℕ) → Option V → Type 0
  Alike o p =
      ((o ≡ none) × (p ≡ none))
      ⊎ ((b : List ℕ) × (v : V) × (o ≡ some b) × (p ≡ some v) × (codec.serialize v ≡ some b))

  abbrev pub AllAlike : Assoc ProtocolAddress (List ℕ) → Assoc (List ℕ) V → Type 0
  AllAlike t m = (a : ProtocolAddress) → Alike (lookup a t) (lookup (address_key a) m)

  pub nil-AllAlike : AllAlike [] []
  unfolding lookup
  nil-AllAlike a = inl (refl, refl)

  pub insert-AllAlike :
      (a : ProtocolAddress) (v : V) (b : List ℕ)
      → codec.serialize v ≡ some b
      → (t : Assoc ProtocolAddress (List ℕ)) (m : Assoc (List ℕ) V) → AllAlike t m
      → AllAlike (insert a b t) (insert (address_key a) v m)
  insert-AllAlike a v b e t m h c =
      rw
        (
          lookup-insert a c b t,
          lookup-insert (address_key a) (address_key c) v m,
          address-eq-key a c,
        )
        (elim (Bool-cases (address_key a == address_key c)) [
          | inl same ↦ rw same (inr (b, v, refl, refl, e))
          | inr other ↦ rw other (h c)
        ])

  pub erase-AllAlike :
      (a : ProtocolAddress) (t : Assoc ProtocolAddress (List ℕ)) (m : Assoc (List ℕ) V)
      → AllAlike t m
      → AllAlike (erase a t) (erase (address_key a) m)
  erase-AllAlike a t m h c =
      rw (lookup-erase a c t, lookup-erase (address_key a) (address_key c) m, address-eq-key a c)
        (elim (Bool-cases (address_key a == address_key c)) [
          | inl same ↦ rw same (inl (refl, refl))
          | inr other ↦ rw other (h c)
        ])

-- The calls that change a store of sessions or of identities.
pub data PeerCall (V : Type 0) : Type 0 where
  put_call : ProtocolAddress → V → PeerCall V
  drop_call : ProtocolAddress → PeerCall V
  drop_all_call : PeerCall V

abbrev pub AllSerialize : {V : Type 0} → Codec V → List (PeerCall V) → Type 0
AllSerialize c [] = Unit
AllSerialize c (put_call a v ∷ cs) = Serializes c v × AllSerialize c cs
AllSerialize c (drop_call a ∷ cs) = AllSerialize c cs
AllSerialize c (drop_all_call ∷ cs) = AllSerialize c cs

-- Sessions.
module _ {SessionRecord : Type 0} where
  abbrev call_memory :
      PeerCall SessionRecord → MemorySessionStore SessionRecord → MemorySessionStore SessionRecord
  call_memory (put_call a r) s = (MemorySessions.store_session a r s).1
  call_memory (drop_call a) s = (MemorySessions.delete_session a s).1
  call_memory drop_all_call s = (MemorySessions.clear_all_sessions s).1

  abbrev pub memory_sessions :
      List (PeerCall SessionRecord)
      → MemorySessionStore SessionRecord
      → MemorySessionStore SessionRecord
  memory_sessions [] s = s
  memory_sessions (c ∷ cs) s = memory_sessions cs (call_memory c s)

module _ {SessionRecord : Type 0} (codec : Codec SessionRecord) where
  abbrev call_sqlite : PeerCall SessionRecord → SqliteSessionStore → SqliteSessionStore
  call_sqlite (put_call a r) s = (SqliteSessions.store_session codec a r s).1
  call_sqlite (drop_call a) s = (SqliteSessions.delete_session a s).1
  call_sqlite drop_all_call s = (SqliteSessions.clear_all_sessions s).1

  abbrev pub sqlite_sessions :
      List (PeerCall SessionRecord) → SqliteSessionStore → SqliteSessionStore
  sqlite_sessions [] s = s
  sqlite_sessions (c ∷ cs) s = sqlite_sessions cs (call_sqlite c s)

  store_session-eq :
      (a : ProtocolAddress) (r : SessionRecord) (b : List ℕ) (s : SqliteSessionStore)
      → codec.serialize r ≡ some b
      → SqliteSessions.store_session codec a r s
        ≡ (ok tt, record { sessions = insert a b s.sessions })
  unfolding SqliteSessions.store_session
  store_session-eq a r b s e = rw e

  load_session-none :
      (s : SqliteSessionStore) (a : ProtocolAddress)
      → lookup a s.sessions ≡ none
      → SqliteSessions.load_session codec s a ≡ ok none
  unfolding SqliteSessions.load_session
  load_session-none s a p = rw (p, SqliteSessions.load_session)

  load_session-some :
      (s : SqliteSessionStore) (a : ProtocolAddress) {b : List ℕ} {r : SessionRecord}
      → lookup a s.sessions ≡ some b
      → codec.deserialize b ≡ some r
      → SqliteSessions.load_session codec s a ≡ ok (some r)
  unfolding SqliteSessions.load_session
  load_session-some s a p d = rw (p, SqliteSessions.load_session) (rw d)

  sessions-alike :
      (cs : List (PeerCall SessionRecord)) (s : SqliteSessionStore)
      (m : MemorySessionStore SessionRecord)
      → AllSerialize codec cs
      → AllAlike codec s.sessions m.sessions
      → AllAlike codec (sqlite_sessions cs s).sessions (memory_sessions cs m).sessions
  unfolding SqliteSessions.delete_session SqliteSessions.clear_all_sessions
      MemorySessions.store_session MemorySessions.delete_session MemorySessions.clear_all_sessions
  sessions-alike [] s m f h = h
  sessions-alike (put_call a r ∷ cs) s m ((b, e), f) h =
      sessions-alike cs (SqliteSessions.store_session codec a r s).1
        (MemorySessions.store_session a r m).1 f
        (rw (store_session-eq a r b s e) (insert-AllAlike codec a r b e s.sessions m.sessions h))
  sessions-alike (drop_call a ∷ cs) s m f h =
      sessions-alike cs (SqliteSessions.delete_session a s).1 (MemorySessions.delete_session a m).1
        f (erase-AllAlike codec a s.sessions m.sessions h)
  sessions-alike (drop_all_call ∷ cs) s m f h =
      sessions-alike cs (record { sessions = [] }) (record { sessions = [] }) f (nil-AllAlike codec)

  -- If what was serialized is read back, the two stores of sessions, started empty, load the same
  -- session for every address, after any sequence of storings of sessions that can be serialized,
  -- of deletions and of clearings.
  pub session_stores-agree :
      (cs : List (PeerCall SessionRecord)) (a : ProtocolAddress)
      → IsCodec codec
      → AllSerialize codec cs
      → SqliteSessions.load_session codec (sqlite_sessions cs (record { sessions = [] })) a
        ≡ MemorySessions.load_session (memory_sessions cs (record { sessions = [] })) a
  unfolding MemorySessions.load_session
  session_stores-agree cs a inverse f =
      let s = sqlite_sessions cs (record { sessions = [] }) in
      let m = memory_sessions cs (record { sessions = [] }) in
      elim (sessions-alike cs (record { sessions = [] }) (record { sessions = [] }) f
        (nil-AllAlike codec) a) [
          | inl (p, q) ↦ rw q (load_session-none s a p)
          | inr (b, r, p, q, e) ↦ rw q (load_session-some s a p (inverse r b e))
        ]
