-- ===== src/StorageTrait/Runs.antt =====
-- Sequences of calls on a key store, against a function from ids to records as its specification.
use radix_relay.Prelude.{
  ℕ, ◌<◌, ◌≡◌, refl, ◌∙◌, ap, inl, inr, Option, none, some, List, [], ◌∷◌, if◌then◌else◌, ◌==◌,
  nat_eq, Option-cases, arith,
}
use radix_relay.Exec.{Exec, Outcome, ok, err}
use radix_relay.StorageTrait.{KeyStore, KeyStoreLaws}

-- The calls that change a store.
pub data KeyCall (R : Type 0) : Type 0 where
  save_call : ℕ → R → KeyCall R
  delete_call : ℕ → KeyCall R
  clear_call : KeyCall R

module _ (T : KeyStore) where
  unfoldable pub run_key_call : KeyCall T.KeyRecord → Exec T.Store Unit
  run_key_call (save_call i r) = T.save i r
  run_key_call (delete_call i) = T.delete i
  run_key_call clear_call = T.clear_all

  unfoldable pub after_key_calls : List (KeyCall T.KeyRecord) → T.Store → T.Store
  unfolding run_key_call
  after_key_calls [] s = s
  after_key_calls (c ∷ cs) s = after_key_calls cs (run_key_call c s).1

module _ {R : Type 0} where
  -- What a call means for the records by id.
  abbrev pub replay_call : KeyCall R → (ℕ → Option R) → ℕ → Option R
  replay_call (save_call i r) f j = if i == j then some r else f j
  replay_call (delete_call i) f j = if i == j then none else f j
  replay_call clear_call f j = none

  abbrev pub replay : List (KeyCall R) → (ℕ → Option R) → ℕ → Option R
  replay [] f = f
  replay (c ∷ cs) f = replay cs (replay_call c f)

  -- The answer to `get` for a record that is there or not.
  abbrev pub answer : Outcome R → Option R → Outcome R
  answer missing none = missing
  answer missing (some r) = ok r

  abbrev pub AllFit : (ℕ → R → Type 0) → List (KeyCall R) → Type 0
  AllFit Fits [] = Unit
  AllFit Fits (save_call i r ∷ cs) = Fits i r × AllFit Fits cs
  AllFit Fits (delete_call i ∷ cs) = AllFit Fits cs
  AllFit Fits (clear_call ∷ cs) = AllFit Fits cs

  pub replay-ext :
      (cs : List (KeyCall R)) (f g : ℕ → Option R)
      → ((j : ℕ) → f j ≡ g j)
      → (j : ℕ) → replay cs f j ≡ replay cs g j
  replay-ext [] f g h j = h j
  replay-ext (save_call i r ∷ cs) f g h j =
      replay-ext cs (replay_call (save_call i r) f) (replay_call (save_call i r) g)
        (λ k. ap (λ o. if i == k then some r else o) (h k)) j
  replay-ext (delete_call i ∷ cs) f g h j =
      replay-ext cs (replay_call (delete_call i) f) (replay_call (delete_call i) g)
        (λ k. ap (λ o. if i == k then none else o) (h k)) j
  replay-ext (clear_call ∷ cs) f g h j = refl

module _ {T : KeyStore} (L : KeyStoreLaws T) where
  pub find-clear : (s : T.Store) (j : ℕ) → L.Valid s → L.find (T.clear_all s).1 j ≡ none
  find-clear s j v = elim (Option-cases (L.find (T.clear_all s).1 j)) [
    | inl gone ↦ gone
    | inr (r, there) ↦
        let some_left : 0 < T.count (T.clear_all s).1 =
          L.count-found (T.clear_all s).1 j (L.clear-Valid s v) there in
        let none_left : T.count (T.clear_all s).1 ≡ 0 = L.count-clear s v in absurd (omega arith)
  ]

  find-replay :
      (cs : List (KeyCall T.KeyRecord)) (s : T.Store)
      → L.Valid s
      → AllFit L.Fits cs
      → L.Valid (after_key_calls T cs s)
        × ((j : ℕ) → L.find (after_key_calls T cs s) j ≡ replay cs (L.find s) j)
  unfolding after_key_calls
  find-replay [] s v h = (v, λ j. refl)
  find-replay (save_call i r ∷ cs) s v h =
      let (w, e) = find-replay cs (T.save i r s).1 (L.save-Valid i r s v h.0) h.1 in
      (
        w,
        λ j.
            e j
            ∙ replay-ext cs (L.find (T.save i r s).1) (replay_call (save_call i r) (L.find s))
                (λ k. L.find-save i r s k v h.0) j,
      )
  find-replay (delete_call i ∷ cs) s v h =
      let (w, e) = find-replay cs (T.delete i s).1 (L.delete-Valid i s v) h in
      (
        w,
        λ j.
            e j
            ∙ replay-ext cs (L.find (T.delete i s).1) (replay_call (delete_call i) (L.find s))
                (λ k. L.find-delete i s k v) j,
      )
  find-replay (clear_call ∷ cs) s v h =
      let (w, e) = find-replay cs (T.clear_all s).1 (L.clear-Valid s v) h in
      (w, λ j. e j ∙ replay-ext cs (L.find (T.clear_all s).1) (λ k. none) (λ k. find-clear s k v) j)

  pub get-answer :
      (s : T.Store) (j : ℕ) → L.Valid s → T.get s j ≡ answer (err L.missing) (L.find s j)
  get-answer s j v = elim (Option-cases (L.find s j)) [
    | inl absent ↦ rw absent (L.get-missing s j v absent)
    | inr (r, there) ↦ rw there (L.get-found s j v there)
  ]

  -- From a valid store, whatever fitting records are saved and whatever ids are deleted or all
  -- cleared, in whatever order, `get` then answers for every id as the same calls on a function
  -- from ids to records say, with the store's error where that has no record; the store is valid.
  pub after_key_calls-replays :
      (cs : List (KeyCall T.KeyRecord)) (s : T.Store)
      → L.Valid s
      → AllFit L.Fits cs
      → L.Valid (after_key_calls T cs s)
        × ((j : ℕ)
            → T.get (after_key_calls T cs s) j ≡ answer (err L.missing) (replay cs (L.find s) j))
  after_key_calls-replays cs s v h =
      let (w, e) = find-replay cs s v h in
      (w, λ j. get-answer (after_key_calls T cs s) j w ∙ ap (answer (err L.missing)) (e j))
