-- ===== src/Sqlite/Live.antt =====
-- An `SqliteStorage` that was opened and initialized, until it is closed.
use radix_relay.Prelude.{◌≡◌, refl, ap, ◌∙◌, ◌⊎◌, inl, inr, Bool, true, false, some}
use radix_relay.Sqlite.Storage.{
  SqliteApi, Tables, SqliteStorage, shared_connection, new, initialize_schema, close, close_unless,
}
use radix_relay.Sqlite.Steps.{Step, Reach, here, there, started_then, status, Ready, Step-status}

module _ {A : SqliteApi} where
  -- Either closed or ready.
  abbrev pub IsLive : SqliteStorage A → Type 0
  IsLive s = (s.is_closed ≡ true) ⊎ Ready s

  same-IsLive : (s u : SqliteStorage A) → status u ≡ status s → IsLive s → IsLive u
  same-IsLive s u e (inl c) = inl (ap (λ x. x.0) e ∙ c)
  same-IsLive s u e (inr h) = inr (e ∙ h)

  close_unless-closed :
      (b : Bool) (s : SqliteStorage A) → s.is_closed ≡ b → (close_unless b s).1.is_closed ≡ true
  close_unless-closed true s e = e
  close_unless-closed false s e = refl

  Step-IsLive : {s u : SqliteStorage A} → Step s u → IsLive s → IsLive u
  unfolding close
  Step-IsLive {s} {u} c h = elim (Step-status c) [
    | inl same ↦ same-IsLive s u same h
    | inr closing ↦ inl (ap (λ x. x.is_closed) closing ∙ close_unless-closed s.is_closed s refl)
  ]

  steps-IsLive : {b : Bool} {s u : SqliteStorage A} → Reach b s u → IsLive s → IsLive u
  unfolding initialize_schema
  steps-IsLive (here s) h = h
  steps-IsLive (there c r) h = steps-IsLive r (Step-IsLive c h)
  steps-IsLive (started_then s r) (inl c) = steps-IsLive r (inl c)
  steps-IsLive (started_then s r) (inr h) =
      let w = some shared_connection in steps-IsLive r (inr (ap (λ x. (x.0, w, w, w, w, w, w)) h))

  -- Whatever calls are made on a storage that was opened and initialized, until it is closed it has
  -- a handle for each of its stores and for the history.
  pub Reach-IsLive :
      (tables : Tables A) (u : SqliteStorage A)
      → Reach true (initialize_schema (new tables)).1 u
      → (u.is_closed ≡ true) ⊎ Ready u
  unfolding initialize_schema
  Reach-IsLive tables u r = steps-IsLive r (inr refl)
