-- ===== src/Cache/Bounds.antt =====
-- What holds of a cache at every moment: map and list agree, and the limit is respected.
use fusefs.Common.{ℕ, ◌≤◌, ◌<◌, ◌≡◌, refl, String, arith, length, ap, ◌∙◌}
use fusefs.Common.Assoc.{lookup}
use fusefs.Cache.{
  LruCache, get, put, delete, clear, len, hit, remove_element, new_lru_cache, find_id,
}
use fusefs.Cache.Agreement.{Agrees, new_lru_cache-Agrees}
use fusefs.Cache.Elements.{find_key}
use fusefs.Cache.Refinement.{get-GetsLike, put-PutsLike, delete-PutsLike, len-put}
use fusefs.Cache.Eviction.{entries}
use fusefs.Cache.Recency.{length-entries_of, length-ideal_get, length-forget_le}

pub record IsSound {V : Type 0} (limit : ℕ) (c : LruCache V) : Type 0 where
  pub agrees : Agrees c
  pub limited : c.max_size ≡ limit
  pub bounded : 0 < limit → len c ≤ limit

pub new_lru_cache-IsSound :
    (V : Type 0) (max_size ttl : ℕ) → IsSound max_size (new_lru_cache {V = V} max_size ttl)
unfolding new_lru_cache len
new_lru_cache-IsSound V max_size ttl = record {
  agrees = unfold new_lru_cache in new_lru_cache-Agrees V max_size ttl;
  limited = refl;
  bounded = λ pos. omega arith;
}

pub clear-Agrees : {V : Type 0} (c : LruCache V) → Agrees (clear c)
unfolding clear lookup find_id find_key
clear-Agrees c = record { distinct = tt; mapped = λ k. refl; fresh = λ i l. refl }

-- A Get leaves the limits.
pub limits-get :
    {V : Type 0} (c : LruCache V) (now : ℕ) (k : String)
    → ((get c now k).0.max_size ≡ c.max_size) × ((get c now k).0.ttl ≡ c.ttl)
unfolding get hit remove_element
limits-get c now k = (ground arith, ground arith)

module _ {V : Type 0} (limit : ℕ) (c : LruCache V) (v : IsSound limit c) where
  pub get-IsSound : (now : ℕ) (k : String) → IsSound limit (get c now k).0
  unfolding len
  get-IsSound now k =
      let g = get-GetsLike c v.agrees now k in
      record {
        agrees = g.agrees;
        limited = (limits-get c now k).0 ∙ v.limited;
        bounded = λ pos. omega (
          arith,
          v.bounded,
          length-entries_of (get c now k).0.lru_list,
          length-entries_of c.lru_list,
          ap length g.listed,
          length-ideal_get c.ttl now k (entries c),
        );
      }

  pub put-IsSound : (now : ℕ) (k : String) (x : V) → IsSound limit (put c now k x)
  put-IsSound now k x =
      let p = put-PutsLike c v.agrees now k x in
      record {
        agrees = p.agrees;
        limited = p.limits.0 ∙ v.limited;
        bounded = λ pos. omega (arith, v.limited, v.bounded, len-put c now k x v.agrees);
      }

  pub delete-IsSound : (k : String) → IsSound limit (delete c k)
  unfolding len
  delete-IsSound k =
      let d = delete-PutsLike c v.agrees k in
      record {
        agrees = d.agrees;
        limited = d.limits.0 ∙ v.limited;
        bounded = λ pos. omega (
          arith,
          v.bounded,
          length-entries_of (delete c k).lru_list,
          length-entries_of c.lru_list,
          ap length d.listed,
          length-forget_le k (entries c),
        );
      }

  pub clear-IsSound : IsSound limit (clear c)
  unfolding clear len
  clear-IsSound = record {
    agrees = unfold clear in clear-Agrees c;
    limited = v.limited;
    bounded = λ pos. omega arith;
  }
