-- ===== src/Cache/Refinement.antt =====
-- The cache does what the recency list promises, operation by operation.
use fusefs.Common.{
  ℕ, ◌≤◌, ◌<◌, ◌≡◌, refl, String, List, ◌∷◌, Option, none, some, inl, inr, arith, length,
  Option-cases, Bool-cases, ◌∙◌, ap, ltb, ◌&&◌, if◌then◌else◌, ◌-◌,
}
use fusefs.Cache.{
  Element, LruCache, get, put, delete, hit, erase_id, remove_element, LruEntry, bump, is_expired,
  evict_over, renew, push_front, len,
}
use fusefs.Cache.Elements.{find_key}
use fusefs.Cache.Eviction.{entries, PutsLike, evict_over-PutsLike}
use fusefs.Cache.Agreement.{
  Agrees, found, missed, counters-Agrees, remove_element-Agrees, touch-Agrees, push_front-Agrees,
}
use fusefs.Cache.Recency.{
  ideal_get, ideal_put, recall, recall-entries_of, entry_of, outlived, fit, forget,
  entries_of-erase_key, length-entries_of, forget, forget_unseen, length-ideal_put,
  ideal_get-ideal_put,
}

-- What a call of Get may do to a cache, given what the ideal list does.
pub record GetsLike {V : Type 0} (c c' : LruCache V) (v : Option V)
    (ideal : List (LruEntry V) × Option V) : Type 0 where
  pub agrees : Agrees c'
  pub listed : entries c' ≡ ideal.0
  pub answer : v ≡ ideal.1
  pub hits : c'.hits ≡ elim v [ none ↦ c.hits | some _ ↦ bump c.hits ]
  pub misses : c'.misses ≡ elim v [ none ↦ bump c.misses | some _ ↦ c.misses ]

module _ {V : Type 0} (c : LruCache V) (a : Agrees c) where
  get_found :
      (now : ℕ) (k : String) {e : Element V}
      → find_key k c.lru_list ≡ some e
      → get c now k ≡ hit c now k e
  unfolding get
  get_found now k {e} h = let f = found c a k h in rw (f.0, get) (rw f.1)

  get_missed :
      (now : ℕ) (k : String)
      → find_key k c.lru_list ≡ none
      → get c now k ≡ (record c { misses = bump c.misses }, none)
  unfolding get
  get_missed now k h = rw (missed c a k h, get)

  hit-GetsLike :
      (now : ℕ) (k : String) {e : Element V}
      → find_key k c.lru_list ≡ some e
      → GetsLike c (hit c now k e).0 (hit c now k e).1 (ideal_get c.ttl now k (entries c))
  unfolding hit is_expired ideal_get remove_element
  hit-GetsLike now k {e} h =
      let f = found c a k h in
      let seen : recall k (entries c) ≡ some e.entry =
        recall-entries_of k c.lru_list ∙ ap entry_of h in
      elim (Bool-cases (outlived c.ttl now e.entry)) [
        | inl old ↦
            rw (seen, ideal_get, old)
              (record {
                agrees =
                    counters-Agrees (remove_element c k e.id) _ _ _ (remove_element-Agrees c a k h);
                listed = rw f.2 (entries_of-erase_key k c.lru_list);
                answer = refl;
                hits = refl;
                misses = refl;
              })
        | inr new ↦
            rw (seen, ideal_get, new)
              (record {
                agrees =
                    counters-Agrees (record c { lru_list = e ∷ erase_id e.id c.lru_list }) _ _ _
                      (touch-Agrees c a k e.entry h f.3);
                listed = ap (◌∷◌ e.entry) (rw f.2 (entries_of-erase_key k c.lru_list));
                answer = refl;
                hits = refl;
                misses = refl;
              })
      ]

  -- Where the cache's map and list agree, Get answers as the recency list does (a key that is not
  -- found or has outlived the ttl gives nothing), leaves the entries that it leaves in its order
  -- with the found one in front, keeps map and list in agreement, and counts the hit or the miss.
  pub get-GetsLike :
      (now : ℕ) (k : String)
      → GetsLike c (get c now k).0 (get c now k).1 (ideal_get c.ttl now k (entries c))
  unfolding ideal_get
  get-GetsLike now k = elim (Option-cases (find_key k c.lru_list)) [
    | inl h ↦
        let unseen : recall k (entries c) ≡ none = recall-entries_of k c.lru_list ∙ ap entry_of h in
        rw (get_missed now k h, unseen, ideal_get)
          (record {
            agrees = counters-Agrees c _ _ _ a;
            listed = refl;
            answer = refl;
            hits = refl;
            misses = refl;
          })
    | inr (e, h) ↦ rw (get_found now k h) (hit-GetsLike now k h)
  ]

module _ {V : Type 0} (c : LruCache V) (a : Agrees c) where
  renew-PutsLike :
      (now : ℕ) (k : String) (v : V) {e : Element V}
      → find_key k c.lru_list ≡ some e
      → PutsLike c
          (renew c now v e)
          (record { key = k; value = v; timestamp = now } ∷ forget k (entries c))
  unfolding renew
  renew-PutsLike now k v {e} h =
      let f = found c a k h in
      let x : LruEntry V = record { key = k; value = v; timestamp = now } in
      record {
        agrees = touch-Agrees c a k _ h f.3;
        listed = rw (f.2, f.3) (ap (◌∷◌ x) (entries_of-erase_key k c.lru_list));
        limits = (refl, refl);
      }

  pushed :
      (now : ℕ) (k : String) (v : V)
      → Agrees (push_front c now k v)
      → PutsLike c
          (evict_over (push_front c now k v))
          (fit c.max_size (record { key = k; value = v; timestamp = now } ∷ entries c))
  unfolding push_front
  pushed now k v b =
      let p = evict_over-PutsLike (push_front c now k v) b in
      record { agrees = p.agrees; listed = p.listed; limits = p.limits }

  -- Where the cache's map and list agree, Put leaves the entries that the recency list has, in its
  -- order: a known key is renewed and moved to the front, a new one goes in front and then the
  -- oldest entry goes if there are too many. Map and list agree again, and the limits stay.
  pub put-PutsLike :
      (now : ℕ) (k : String) (v : V)
      → PutsLike c (put c now k v) (ideal_put c.max_size now k v (entries c))
  unfolding put ideal_put
  put-PutsLike now k v = elim (Option-cases (find_key k c.lru_list)) [
    | inl h ↦
        let unseen : recall k (entries c) ≡ none = recall-entries_of k c.lru_list ∙ ap entry_of h in
        rw (missed c a k h, put, unseen, ideal_put)
          (pushed now k v (push_front-Agrees c a k v now h))
    | inr (e, h) ↦
        let f = found c a k h in
        let seen : recall k (entries c) ≡ some e.entry =
          recall-entries_of k c.lru_list ∙ ap entry_of h in
        rw (f.0, put, seen, ideal_put) (rw f.1 (renew-PutsLike now k v h))
  ]

  -- Where the cache's map and list agree, Delete leaves the entries of the recency list without
  -- the key, in its order; map and list agree again, and the limits stay.
  pub delete-PutsLike : (k : String) → PutsLike c (delete c k) (forget k (entries c))
  unfolding delete remove_element
  delete-PutsLike k = elim (Option-cases (find_key k c.lru_list)) [
    | inl h ↦
        let unseen : recall k (entries c) ≡ none = recall-entries_of k c.lru_list ∙ ap entry_of h in
        rw (missed c a k h, delete)
          (record {
            agrees = a;
            listed = forget_unseen k (entries c) unseen;
            limits = (refl, refl);
          })
    | inr (e, h) ↦
        let f = found c a k h in
        rw (f.0, delete)
          (record {
            agrees = remove_element-Agrees c a k h;
            listed = rw f.2 (entries_of-erase_key k c.lru_list);
            limits = (refl, refl);
          })
  ]

-- A cache with a positive limit, within it, stays within it after a Put, where its map and list
-- agree.
pub len-put :
    {V : Type 0} (c : LruCache V) (now : ℕ) (k : String) (v : V)
    → Agrees c
    → 0 < c.max_size
    → len c ≤ c.max_size
    → len (put c now k v) ≤ c.max_size
unfolding len
len-put c now k v a pos h =
    let p = put-PutsLike c a now k v in
    omega (
      arith,
      length-entries_of (put c now k v).lru_list,
      length-entries_of c.lru_list,
      ap length p.listed,
      length-ideal_put c.max_size now k v (entries c) pos,
    )

-- A Get of the key that was just put gives its value until it outlives a positive ttl, and nothing
-- after, where the cache's map and list agree: the new entry is never the one that is evicted.
pub get-put :
    {V : Type 0} (c : LruCache V) (now later : ℕ) (k : String) (v : V)
    → Agrees c
    → (get (put c now k v) later k).1
      ≡ (if ltb 0 c.ttl && ltb c.ttl (later - now) then none else some v)
get-put c now later k v a =
    let p = put-PutsLike c a now k v in
    let g = get-GetsLike (put c now k v) p.agrees later k in
    rw (g.answer, p.listed, p.limits.1)
      (ideal_get-ideal_put c.max_size c.ttl now later k v (entries c))
