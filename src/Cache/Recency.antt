-- ===== src/Cache/Recency.antt =====
-- What the cache promises: entries by key, most recent first, with no map, links or identities.
use fusefs.Common.{
  ℕ, ◌-◌, ◌<◌, ◌≡◌, refl, String, Bool, ◌&&◌, List, [], ◌∷◌, map, Option, none, some, arith, length,
  ltb, if◌then◌else◌, ite, ap, suc, ◌≤◌, Option-cases, inl, inr,
}
use fusefs.Common.Keys.{string_discrete}
use fusefs.Cache.{LruEntry, Element}
use fusefs.Cache.Elements.{find_key, erase_key, drop_last}

abbrev pub Entries : Type 0 → Type 0
Entries V = List (LruEntry V)

module _ {V : Type 0} where
  unfoldable pub recall : String → Entries V → Option (LruEntry V)
  recall k [] = none
  recall k (x ∷ xs) = ite (string_discrete x.key k) (some x) (recall k xs)

  unfoldable pub forget : String → Entries V → Entries V
  forget k [] = []
  forget k (x ∷ xs) = ite (string_discrete x.key k) xs (x ∷ forget k xs)

  unfoldable pub forget_oldest : Entries V → Entries V
  forget_oldest [] = []
  forget_oldest (x ∷ []) = []
  forget_oldest (x ∷ y ∷ xs) = x ∷ forget_oldest (y ∷ xs)

  -- Entries V are kept for `ttl`, or for good if that is 0.
  abbrev pub outlived : ℕ → ℕ → LruEntry V → Bool
  outlived ttl now x = ltb 0 ttl && ltb ttl (now - x.timestamp)

  -- A key that is found becomes the most recent one, unless it is too old, and then it goes.
  unfoldable pub ideal_get : ℕ → ℕ → String → Entries V → Entries V × Option V
  ideal_get ttl now k xs = elim (recall k xs) [
    | none ↦ (xs, none)
    | some x ↦ if outlived ttl now x then (forget k xs, none) else (x ∷ forget k xs, some x.value)
  ]

  -- The oldest entry goes if there are more than `max_size`, unless that is 0.
  abbrev pub fit : ℕ → Entries V → Entries V
  fit max_size xs = if ltb 0 max_size && ltb max_size (length xs) then forget_oldest xs else xs

  unfoldable pub ideal_put : ℕ → ℕ → String → V → Entries V → Entries V
  ideal_put max_size now k v xs =
      let x : LruEntry V = record { key = k; value = v; timestamp = now } in
      elim (recall k xs) [ none ↦ fit max_size (x ∷ xs) | some old ↦ x ∷ forget k xs ]

  abbrev pub entries_of : List (Element V) → Entries V
  entries_of = map (λ e. e.entry)

  abbrev pub entry_of : Option (Element V) → Option (LruEntry V)
  entry_of none = none
  entry_of (some e) = some e.entry

  pub recall-entries_of :
      (k : String) (es : List (Element V)) → recall k (entries_of es) ≡ entry_of (find_key k es)
  unfolding recall find_key
  recall-entries_of k [] = refl
  recall-entries_of k (e ∷ es) = ground (arith, recall-entries_of k es)

  pub entries_of-erase_key :
      (k : String) (es : List (Element V)) → entries_of (erase_key k es) ≡ forget k (entries_of es)
  unfolding forget erase_key
  entries_of-erase_key k [] = refl
  entries_of-erase_key k (e ∷ es) = ground (arith, entries_of-erase_key k es)

  pub entries_of-drop_last :
      (es : List (Element V)) → entries_of (drop_last es) ≡ forget_oldest (entries_of es)
  unfolding drop_last forget_oldest
  entries_of-drop_last [] = refl
  entries_of-drop_last (e ∷ []) = refl
  entries_of-drop_last (e ∷ f ∷ es) = ap (◌∷◌ e.entry) (entries_of-drop_last (f ∷ es))

  pub length-entries_of : (es : List (Element V)) → length (entries_of es) ≡ length es
  length-entries_of [] = refl
  length-entries_of (e ∷ es) = ap suc (length-entries_of es)

  pub forget_unseen : (k : String) (xs : Entries V) → recall k xs ≡ none → xs ≡ forget k xs
  unfolding recall forget
  forget_unseen k [] h = refl
  forget_unseen k (x ∷ xs) h = ground (arith, forget_unseen k xs)

  length-forget :
      (k : String) (xs : Entries V) {x : LruEntry V}
      → recall k xs ≡ some x
      → suc (length (forget k xs)) ≡ length xs
  unfolding recall forget
  length-forget k [] h = absurd (cc h)
  length-forget k (y ∷ xs) {x} h = ground (arith, length-forget k xs {x = x})

  pub length-forget_le : (k : String) (xs : Entries V) → length (forget k xs) ≤ length xs
  length-forget_le k xs = elim (Option-cases (recall k xs)) [
    | inl e ↦ omega (arith, ap length (forget_unseen k xs e))
    | inr (x, e) ↦ omega (arith, length-forget k xs e)
  ]

  pub length-ideal_get :
      (ttl now : ℕ) (k : String) (xs : Entries V) → length (ideal_get ttl now k xs).0 ≤ length xs
  unfolding ideal_get
  length-ideal_get ttl now k xs = elim (Option-cases (recall k xs)) [
    | inl e ↦ rw (e, ideal_get) (omega arith)
    | inr (x, e) ↦ rw (e, ideal_get) (ground (arith, length-forget k xs e))
  ]

  length-forget_oldest :
      (x : LruEntry V) (xs : Entries V) → length (forget_oldest (x ∷ xs)) ≡ length xs
  unfolding forget_oldest
  length-forget_oldest x [] = refl
  length-forget_oldest x (y ∷ xs) = ap suc (length-forget_oldest y xs)

  pub length-ideal_put :
      (max_size now : ℕ) (k : String) (v : V) (xs : Entries V)
      → 0 < max_size
      → length xs ≤ max_size
      → length (ideal_put max_size now k v xs) ≤ max_size
  unfolding ideal_put
  length-ideal_put max_size now k v xs pos h =
      let x : LruEntry V = record { key = k; value = v; timestamp = now } in
      elim (Option-cases (recall k xs)) [
        | inl e ↦ rw (e, ideal_put) (ground (arith, length-forget_oldest x xs))
        | inr (old, e) ↦ rw (e, ideal_put) (omega (arith, length-forget k xs e))
      ]

  recall_front :
      (k : String) (v : V) (now : ℕ) (xs : Entries V)
      → recall k (record { key = k; value = v; timestamp = now } ∷ xs)
        ≡ some (record { key = k; value = v; timestamp = now })
  unfolding recall
  recall_front k v now xs = ground arith

  recall-fit :
      (max_size : ℕ) (k : String) (v : V) (now : ℕ) (xs : Entries V)
      → recall k (fit max_size (record { key = k; value = v; timestamp = now } ∷ xs))
        ≡ some (record { key = k; value = v; timestamp = now })
  unfolding forget_oldest
  recall-fit max_size k v now [] = ground (arith, recall_front k v now [])
  recall-fit max_size k v now (y ∷ xs) =
      ground (arith, recall_front k v now (y ∷ xs), recall_front k v now (forget_oldest (y ∷ xs)))

  recall-ideal_put :
      (max_size now : ℕ) (k : String) (v : V) (xs : Entries V)
      → recall k (ideal_put max_size now k v xs)
        ≡ some (record { key = k; value = v; timestamp = now })
  unfolding ideal_put
  recall-ideal_put max_size now k v xs = elim (Option-cases (recall k xs)) [
    | inl e ↦ rw (e, ideal_put) (recall-fit max_size k v now xs)
    | inr (old, e) ↦ rw (e, ideal_put) (recall_front k v now (forget k xs))
  ]

  pub ideal_get-ideal_put :
      (max_size ttl now later : ℕ) (k : String) (v : V) (xs : Entries V)
      → (ideal_get ttl later k (ideal_put max_size now k v xs)).1
        ≡ (if ltb 0 ttl && ltb ttl (later - now) then none else some v)
  unfolding ideal_get
  ideal_get-ideal_put max_size ttl now later k v xs =
      rw (recall-ideal_put max_size now k v xs, ideal_get) (ground arith)
