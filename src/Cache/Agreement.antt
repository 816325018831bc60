-- ===== src/Cache/Agreement.antt =====
-- The map and the list of the cache agree, and every operation keeps it so.
use fusefs.Common.{ℕ, ◌≤◌, ◌≡◌, refl, String, ◌∷◌, Option, none, some, arith}
use fusefs.Common.Keys.{string_key}
use fusefs.Common.Assoc.{lookup, lookup-insert, lookup-remove}
use fusefs.Cache.{
  Element, LruCache, find_id, erase_id, remove_element, LruEntry, push_front, new_lru_cache,
}
use fusefs.Cache.Elements.{
  find_key, erase_key, Distinct, find_id-find_key, erase_key-Distinct, find_key-erase_key,
  erase_id-find_key, find_id-erase_key, find_key-key, find_id-erase_key_self, find_key-cons,
  find_id-cons,
}

abbrev pub id_of : {V : Type 0} → Option (Element V) → Option ℕ
id_of none = none
id_of (some e) = some e.id

-- The map holds exactly the keys of the list, each with the identity of its element; the
-- identities of new elements are unused.
pub record Agrees {V : Type 0} (c : LruCache V) : Type 0 where
  pub distinct : Distinct c.lru_list
  pub mapped : (k : String) → lookup k c.items ≡ id_of (find_key k c.lru_list)
  pub fresh : (i : ℕ) → c.next_id ≤ i → find_id i c.lru_list ≡ none

module _ {V : Type 0} (c : LruCache V) (a : Agrees c) where
  -- What the pointer of a key names, and what its erasure leaves.
  pub found :
      (k : String) {e : Element V}
      → find_key k c.lru_list ≡ some e
      → (lookup k c.items ≡ some e.id)
        × (find_id e.id c.lru_list ≡ some e)
        × (erase_id e.id c.lru_list ≡ erase_key k c.lru_list)
        × (e.key ≡ k)
  found k {e} h = (
    ground (arith, a.mapped k),
    find_id-find_key k c.lru_list a.distinct h,
    erase_id-find_key k c.lru_list a.distinct h,
    find_key-key k c.lru_list h,
  )

  pub missed : (k : String) → find_key k c.lru_list ≡ none → lookup k c.items ≡ none
  missed k h = ground (arith, a.mapped k)

  pub remove_element-Agrees :
      (k : String) {e : Element V}
      → find_key k c.lru_list ≡ some e
      → Agrees (remove_element c k e.id)
  unfolding remove_element
  remove_element-Agrees k {e} h =
      let f = found k h in
      record {
        distinct = rw f.2 (erase_key-Distinct k c.lru_list a.distinct);
        mapped = λ q. rw f.2 (
            ground (
              arith,
              lookup-remove k q c.items,
              find_key-erase_key k q c.lru_list a.distinct,
              a.mapped q,
            ));
        fresh = λ i l. rw f.2 (find_id-erase_key k i c.lru_list (a.fresh i l));
      }

  -- An element in front, with the identity and the key of one that is erased.
  pub touch-Agrees :
      (k : String) {e : Element V} (x : LruEntry V)
      → find_key k c.lru_list ≡ some e
      → x.key ≡ k
      → Agrees (record c { lru_list = record { id = e.id; entry = x } ∷ erase_id e.id c.lru_list })
  touch-Agrees k {e} x h same =
      let f = found k h in
      let rest = erase_key k c.lru_list in
      let front : Element V = record { id = e.id; entry = x } in
      record {
        distinct = rw f.2 (
          ground (arith, find_key-erase_key k x.key c.lru_list a.distinct),
          find_id-erase_key_self k c.lru_list a.distinct h,
          erase_key-Distinct k c.lru_list a.distinct,
        );
        mapped = λ q. rw f.2 (
            ground (
              arith,
              f.0,
              find_key-cons q front rest,
              find_key-erase_key k q c.lru_list a.distinct,
              a.mapped q,
            ));
        fresh = λ i l. rw f.2 (
            ground (
              arith,
              f.1,
              find_id-cons i front rest,
              find_id-erase_key k i c.lru_list,
              a.fresh i l,
              a.fresh e.id,
            ));
      }

  pub push_front-Agrees :
      (k : String) (v : V) (now : ℕ) → find_key k c.lru_list ≡ none → Agrees (push_front c now k v)
  unfolding push_front
  push_front-Agrees k v now h =
      let x : Element V = record {
        id = c.next_id;
        entry = record { key = k; value = v; timestamp = now };
      } in
      record {
        distinct = (h, a.fresh c.next_id (omega arith), a.distinct);
        mapped = λ q.
            ground (
              arith,
              find_key-cons q x c.lru_list,
              lookup-insert k q c.next_id c.items,
              a.mapped q,
            );
        fresh = λ i l. ground (arith, find_id-cons i x c.lru_list, a.fresh i);
      }

-- The counters are no part of the agreement.
pub counters-Agrees :
    {V : Type 0} (c : LruCache V) (h m n : ℕ)
    → Agrees c
    → Agrees (record c { hits = h; misses = m; evictions = n })
counters-Agrees c h m n a = record { distinct = a.distinct; mapped = a.mapped; fresh = a.fresh }

pub new_lru_cache-Agrees :
    (V : Type 0) (max_size ttl : ℕ) → Agrees (new_lru_cache {V = V} max_size ttl)
unfolding new_lru_cache lookup find_id find_key
new_lru_cache-Agrees V max_size ttl = record {
  distinct = tt;
  mapped = λ k. refl;
  fresh = λ i l. refl;
}
