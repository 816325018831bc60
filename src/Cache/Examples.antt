-- ===== src/Cache/Examples.antt =====
-- A cache of two entries: tests, and the theorems at inputs that meet their hypotheses.
use fusefs.Common.{refl, ℕ, ◌≡◌, some, none}
use fusefs.Common.Keys.{string_discrete}
use fusefs.Common.Assoc.{lookup, insert, remove}
use fusefs.Cache.{
  LruCache, new_lru_cache, get, hit, put, delete, len, find_id, erase_id, back, is_expired,
  remove_element, evict_oldest, evict_over, push_front, renew,
}
use fusefs.Cache.Agreement.{Agrees, new_lru_cache-Agrees}
use fusefs.Cache.Recency.{ideal_get, ideal_put, recall, forget, forget_oldest}
use fusefs.Cache.Refinement.{GetsLike, get-GetsLike, put-PutsLike}
use fusefs.Cache.Eviction.{entries, PutsLike}

program : Unit {0}
unfolding new_lru_cache get hit put delete len find_id erase_id back is_expired remove_element
    evict_oldest evict_over push_front renew lookup insert remove string_discrete ideal_get
    ideal_put recall forget forget_oldest
program = tt

abbrev empty : LruCache ℕ
empty = new_lru_cache 2 10

abbrev one : LruCache ℕ
one = put empty 100 "/a" 7

abbrev full : LruCache ℕ
full = put one 101 "/b" 8

one-Agrees : Agrees one
unfolding new_lru_cache
one-Agrees = (put-PutsLike empty (new_lru_cache-Agrees ℕ 2 10) 100 "/a" 7).agrees

full-Agrees : Agrees full
full-Agrees = (put-PutsLike one one-Agrees 101 "/b" 8).agrees

-- "/a" was used last, so "/b" is evicted; at time 111 "/a" is too old.
eviction_test :
    let c = put (get full 102 "/a").0 103 "/c" 9 in
    ((get c 104 "/a").1 ≡ some 7)
    × ((get c 104 "/b").1 ≡ none)
    × ((get c 111 "/a").1 ≡ none)
    × (len c ≡ 2)
    × (c.evictions ≡ 1)
unfolding program
eviction_test = (refl, refl, refl, refl, refl)

get-GetsLike_example :
    GetsLike full (get full 102 "/a").0 (some 7) (ideal_get 10 102 "/a" (entries full))
unfolding program
get-GetsLike_example = get-GetsLike full full-Agrees 102 "/a"

put-PutsLike_example : PutsLike full (put full 102 "/c" 9) (ideal_put 2 102 "/c" 9 (entries full))
unfolding program
put-PutsLike_example = put-PutsLike full full-Agrees 102 "/c" 9
