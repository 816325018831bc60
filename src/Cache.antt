-- ===== src/Cache.antt =====
-- cache.go: the LRU cache, a map from keys to elements of a linked list, most recent first. Each
-- method holds the cache's mutex throughout; the clock is an argument of each call.
pub mod Elements
pub mod Agreement
pub mod Recency
pub mod Eviction
pub mod Refinement
pub mod Forgetting
pub mod Bounds
pub mod Values
mod Examples
use fusefs.Common.{
  ℕ, ◌+◌, ◌-◌, ◌%◌, ◌^◌, String, Bool, ◌&&◌, List, [], ◌∷◌, Option, none, some, ite, ltb, length,
  ◌==◌, if◌then◌else◌,
}
use fusefs.Common.Keys.{string_key, string_discrete}
use fusefs.Common.Assoc.{Assoc, lookup, insert, remove}

pub record LruEntry (V : Type 0) : Type 0 where
  pub key : String
  pub value : V
  pub timestamp : ℕ

-- An element of container/list; `id` is its identity, which the map's pointers name.
pub record Element (V : Type 0) : Type 0 where
  pub id : ℕ
  pub entry : LruEntry V
  pub open entry use *

-- `max_size` and `ttl` are read only by tests `> 0`, so a value of 0 stands for all that are not
-- positive. `next_id` numbers the elements that were ever allocated.
pub record LruCache (V : Type 0) : Type 0 where
  pub max_size : ℕ
  pub ttl : ℕ
  pub items : Assoc String ℕ
  pub lru_list : List (Element V)
  pub next_id : ℕ
  pub hits : ℕ
  pub misses : ℕ
  pub evictions : ℕ

-- An increment of a uint64 counter.
abbrev pub bump : ℕ → ℕ
bump n = (n + 1) % 2 ^ 64

-- A quotient, where the code rounds it to a float64. It is 0 / 1 for 0.
pub record Rate : Type 0 where
  pub num : ℕ
  pub den : ℕ

abbrev pub zero_rate : Rate
zero_rate = record { num = 0; den = 1 }

pub record CacheStats : Type 0 where
  pub size : ℕ
  pub max_size : ℕ
  pub hits : ℕ
  pub misses : ℕ
  pub evictions : ℕ
  pub hit_rate : Rate

module _ {V : Type 0} where
  unfoldable pub new_lru_cache : ℕ → ℕ → LruCache V
  new_lru_cache max_size ttl = record {
    max_size = max_size;
    ttl = ttl;
    items = [];
    lru_list = [];
    next_id = 0;
    hits = 0;
    misses = 0;
    evictions = 0;
  }

  -- The element that a pointer names.
  unfoldable pub find_id : ℕ → List (Element V) → Option (Element V)
  find_id i [] = none
  find_id i (e ∷ es) = if e.id == i then some e else find_id i es

  -- `list.Remove`
  unfoldable pub erase_id : ℕ → List (Element V) → List (Element V)
  erase_id i [] = []
  erase_id i (e ∷ es) = if e.id == i then es else e ∷ erase_id i es

  -- `list.Back`
  unfoldable pub back : List (Element V) → Option (Element V)
  back [] = none
  back (e ∷ []) = some e
  back (e ∷ f ∷ es) = back (f ∷ es)

  unfoldable pub is_expired : LruCache V → ℕ → LruEntry V → Bool
  is_expired c now entry = ltb 0 c.ttl && ltb c.ttl (now - entry.timestamp)

  unfoldable pub remove_element : LruCache V → String → ℕ → LruCache V
  remove_element c key i = record c { lru_list = erase_id i c.lru_list; items = remove key c.items }

  unfoldable pub hit : LruCache V → ℕ → String → Element V → LruCache V × Option V
  hit c now key e =
      if is_expired c now e.entry
      then (let c' = remove_element c key e.id in (record c' { misses = bump c'.misses }, none))
      else (record c { lru_list = e ∷ erase_id e.id c.lru_list; hits = bump c.hits }, some e.value)

  -- A pointer of the map always names an element of the list, so the inner `none` is never met.
  unfoldable pub get : LruCache V → ℕ → String → LruCache V × Option V
  get c now key = elim (lookup key c.items) [
    | none ↦ (record c { misses = bump c.misses }, none)
    | some i ↦ elim (find_id i c.lru_list) [ none ↦ (c, none) | some e ↦ hit c now key e ]
  ]

  unfoldable pub evict_oldest : LruCache V → LruCache V
  evict_oldest c = elim (back c.lru_list) [
    | none ↦ c
    | some e ↦ let c' = remove_element c e.key e.id in record c' { evictions = bump c'.evictions }
  ]

  unfoldable pub push_front : LruCache V → ℕ → String → V → LruCache V
  push_front c now key value = record c {
    lru_list =
        record { id = c.next_id; entry = record { key = key; value = value; timestamp = now } }
        ∷ c.lru_list;
    items = insert key c.next_id c.items;
    next_id = c.next_id + 1;
  }

  unfoldable pub renew : LruCache V → ℕ → V → Element V → LruCache V
  renew c now value e = record c {
    lru_list =
        record { id = e.id; entry = record { key = e.key; value = value; timestamp = now } }
        ∷ erase_id e.id c.lru_list;
  }

  unfoldable pub evict_over : LruCache V → LruCache V
  evict_over c =
      if ltb 0 c.max_size && ltb c.max_size (length c.lru_list) then evict_oldest c else c

  unfoldable pub put : LruCache V → ℕ → String → V → LruCache V
  put c now key value = elim (lookup key c.items) [
    | none ↦ evict_over (push_front c now key value)
    | some i ↦ elim (find_id i c.lru_list) [ none ↦ c | some e ↦ renew c now value e ]
  ]

  unfoldable pub delete : LruCache V → String → LruCache V
  delete c key = elim (lookup key c.items) [ none ↦ c | some i ↦ remove_element c key i ]

  unfoldable pub clear : LruCache V → LruCache V
  clear c = record c { items = []; lru_list = [] }

  unfoldable pub len : LruCache V → ℕ
  len c = length c.lru_list

  unfoldable pub stats : LruCache V → CacheStats
  stats c =
      let total = (c.hits + c.misses) % 2 ^ 64 in
      record {
        size = length c.lru_list;
        max_size = c.max_size;
        hits = c.hits;
        misses = c.misses;
        evictions = c.evictions;
        hit_rate = if ltb 0 total then record { num = c.hits; den = total } else zero_rate;
      }
