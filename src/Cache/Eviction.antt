-- ===== src/Cache/Eviction.antt =====
-- cache.go: what the eviction of the oldest entry does to the recency list.
use fusefs.Common.{◌≡◌, refl, List, [], inl, inr, length, Option-cases, Bool-cases, ltb, ◌&&◌}
use fusefs.Cache.{Element, LruCache, remove_element, LruEntry, evict_oldest, evict_over, back}
use fusefs.Cache.Elements.{back-find_key, back-none}
use fusefs.Cache.Agreement.{Agrees, found, counters-Agrees, remove_element-Agrees}
use fusefs.Cache.Recency.{entries_of, forget_oldest, fit, entries_of-drop_last, length-entries_of}

abbrev pub entries : {V : Type 0} → LruCache V → List (LruEntry V)
entries c = entries_of c.lru_list

-- What a call of Put may do to a cache, given the ideal list.
pub record PutsLike {V : Type 0} (c c' : LruCache V) (ideal : List (LruEntry V)) : Type 0 where
  pub agrees : Agrees c'
  pub listed : entries c' ≡ ideal
  pub limits : (c'.max_size ≡ c.max_size) × (c'.ttl ≡ c.ttl)

module _ {V : Type 0} (c : LruCache V) (a : Agrees c) where
  none_oldest : (es : List (Element V)) → es ≡ [] → entries_of es ≡ forget_oldest (entries_of es)
  unfolding forget_oldest
  none_oldest es h = rw h

  -- The element at the back goes, by its key and by its identity.
  evict_oldest-PutsLike : PutsLike c (evict_oldest c) (forget_oldest (entries c))
  unfolding evict_oldest remove_element
  evict_oldest-PutsLike = elim (Option-cases (back c.lru_list)) [
    | inl h ↦
        rw (h, evict_oldest)
          (record {
            agrees = a;
            listed = none_oldest c.lru_list (back-none c.lru_list h);
            limits = (refl, refl);
          })
    | inr (e, h) ↦
        let b = back-find_key c.lru_list a.distinct h in
        let f = found c a e.key b.0 in
        rw (h, evict_oldest)
          (record {
            agrees =
                counters-Agrees (remove_element c e.key e.id) _ _ _
                  (remove_element-Agrees c a e.key b.0);
            listed = rw (f.2, b.1) (entries_of-drop_last c.lru_list);
            limits = (refl, refl);
          })
  ]

  pub evict_over-PutsLike : PutsLike c (evict_over c) (fit c.max_size (entries c))
  unfolding evict_over
  evict_over-PutsLike =
      rw (length-entries_of c.lru_list)
        (elim (Bool-cases (ltb 0 c.max_size && ltb c.max_size (length c.lru_list))) [
          | inl over ↦ rw over evict_oldest-PutsLike
          | inr fits ↦ rw fits (record { agrees = a; listed = refl; limits = (refl, refl) })
        ])
