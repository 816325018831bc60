-- ===== src/Cache/Values.antt =====
-- What holds of every key with its value when it is put into the cache holds of what Get answers.
use fusefs.Common.{
  ℕ, ◌≡◌, sym, subst, String, [], ◌∷◌, some, All, Option-cases, inl, inr, ltb, ◌&&◌, length,
  Bool-cases, arith, ite, ◌∙◌, if_rule, suc,
}
use fusefs.Common.Keys.{string_discrete}
use fusefs.Cache.{LruCache, LruEntry, get, put, delete, clear}
use fusefs.Cache.Agreement.{Agrees}
use fusefs.Cache.Eviction.{entries}
use fusefs.Cache.Recency.{Entries, recall, forget, forget_oldest, ideal_get, ideal_put, outlived}
use fusefs.Cache.Refinement.{get-GetsLike, put-PutsLike, delete-PutsLike}
use fusefs.Cache.Bounds.{clear-Agrees}

module _ {V : Type 0} (Q : String → V → Type 0) where
  abbrev Each : Entries V → Type 0
  Each = All (λ x. Q x.key x.value)

  -- Each entry of the cache has the property.
  abbrev pub Holds : LruCache V → Type 0
  Holds c = Each (entries c)

  forget-Each : (k : String) (xs : Entries V) → Each xs → Each (forget k xs)
  unfolding forget
  forget-Each k [] h = tt
  forget-Each k (x ∷ xs) h =
      elim (string_discrete x.key k) as (λ d. Each (ite d xs (x ∷ forget k xs))) [
        | yes p ↦ h.1
        | no n ↦ (h.0, forget-Each k xs h.1)
      ]

  forget_oldest-Each : (xs : Entries V) → Each xs → Each (forget_oldest xs)
  unfolding forget_oldest
  forget_oldest-Each [] h = tt
  forget_oldest-Each (x ∷ []) h = tt
  forget_oldest-Each (x ∷ y ∷ xs) h = (h.0, forget_oldest-Each (y ∷ xs) h.1)

  recall-Each :
      (k : String) (xs : Entries V) (x : LruEntry V)
      → Each xs
      → recall k xs ≡ some x
      → Q x.key x.value × (x.key ≡ k)
  unfolding recall
  recall-Each k [] x h e = absurd (cc e)
  recall-Each k (y ∷ xs) x h e = elim (string_discrete y.key k) [
    | yes p ↦
        let first : y ≡ x = ground arith in
        subst (λ z. Q z.key z.value × (z.key ≡ k)) first (h.0, p)
    | no n ↦ recall-Each k xs x h.1 (ground arith)
  ]

  ideal_get-Each :
      (ttl now : ℕ) (k : String) (xs : Entries V)
      → Each xs
      → Each (ideal_get ttl now k xs).0 × ((v : V) → (ideal_get ttl now k xs).1 ≡ some v → Q k v)
  unfolding ideal_get
  ideal_get-Each ttl now k xs h = elim (Option-cases (recall k xs)) [
    | inl e ↦ rw (e, ideal_get) (h, λ v f. absurd (cc f))
    | inr (x, e) ↦
        let (q, same) = recall-Each k xs x h e in
        elim (Bool-cases (outlived ttl now x)) [
          | inl old ↦ rw (e, ideal_get, old) (forget-Each k xs h, λ v f. absurd (cc f))
          | inr new ↦
              rw (e, ideal_get, new)
                (
                  (q, forget-Each k xs h),
                  λ v f.
                      let value : x.value ≡ v = cc f in
                      subst (Q k) value (subst (λ j. Q j x.value) same q),
                )
        ]
  ]

  ideal_put-Each :
      (max_size now : ℕ) (k : String) (v : V) (xs : Entries V)
      → Q k v
      → Each xs
      → Each (ideal_put max_size now k v xs)
  unfolding ideal_put
  ideal_put-Each max_size now k v xs q h = elim (Option-cases (recall k xs)) [
    | inl e ↦
        rw (e, ideal_put)
          (if_rule Each (ltb 0 max_size && ltb max_size (suc (length xs)))
            (λ over. forget_oldest-Each _ (q, h)) (λ fits. (q, h)))
    | inr (old, e) ↦ rw (e, ideal_put) (q, forget-Each k xs h)
  ]

  module _ (c : LruCache V) (a : Agrees c) (h : Holds c) where
    get-Holds : (now : ℕ) (k : String) → Holds (get c now k).0
    get-Holds now k =
        subst Each (sym (get-GetsLike c a now k).listed)
          (ideal_get-Each c.ttl now k (entries c) h).0

    -- What Get answers.
    pub get_answered : (now : ℕ) (k : String) (v : V) → (get c now k).1 ≡ some v → Q k v
    get_answered now k v e =
        (ideal_get-Each c.ttl now k (entries c) h).1 v (sym (get-GetsLike c a now k).answer ∙ e)

    put-Holds : (now : ℕ) (k : String) (v : V) → Q k v → Holds (put c now k v)
    put-Holds now k v q =
        subst Each (sym (put-PutsLike c a now k v).listed)
          (ideal_put-Each c.max_size now k v (entries c) q h)

    delete-Holds : (k : String) → Holds (delete c k)
    delete-Holds k = subst Each (sym (delete-PutsLike c a k).listed) (forget-Each k (entries c) h)

  clear-Holds : (c : LruCache V) → Holds (clear c)
  unfolding clear
  clear-Holds c = tt

-- A cache whose map and list agree, and whose entries all have the property.
pub record Stores {V : Type 0} (Q : String → V → Type 0) (c : LruCache V) : Type 0 where
  pub agrees : Agrees c
  pub each : Holds Q c

module _ {V : Type 0} (Q : String → V → Type 0) (c : LruCache V) (h : Stores Q c) where
  pub get-Stores : (now : ℕ) (k : String) → Stores Q (get c now k).0
  get-Stores now k = record {
    agrees = (get-GetsLike c h.agrees now k).agrees;
    each = get-Holds Q c h.agrees h.each now k;
  }

  pub put-Stores : (now : ℕ) (k : String) (v : V) → Q k v → Stores Q (put c now k v)
  put-Stores now k v q = record {
    agrees = (put-PutsLike c h.agrees now k v).agrees;
    each = put-Holds Q c h.agrees h.each now k v q;
  }

  pub delete-Stores : (k : String) → Stores Q (delete c k)
  delete-Stores k = record {
    agrees = (delete-PutsLike c h.agrees k).agrees;
    each = delete-Holds Q c h.agrees h.each k;
  }

  pub clear-Stores : Stores Q (clear c)
  clear-Stores = record { agrees = clear-Agrees c; each = clear-Holds Q c }
