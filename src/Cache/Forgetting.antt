-- ===== src/Cache/Forgetting.antt =====
-- What a deleted key, and any other key, answers afterwards.
use fusefs.Common.{
  refl, ap, ◌∙◌, arith, ℕ, Option, String, ◌≡◌, if◌then◌else◌, Option-cases, none, inl, inr, ite,
}
use fusefs.Cache.{LruCache, Element, get, delete, some, remove_element}
use fusefs.Cache.Agreement.{Agrees, missed, found}
use fusefs.Cache.Elements.{find_key, find_key-erase_key}
use fusefs.Cache.Recency.{ideal_get, recall, entry_of, recall-entries_of, outlived}
use fusefs.Cache.Refinement.{get-GetsLike, delete-PutsLike}
use fusefs.Cache.Eviction.{entries}
use fusefs.Common.Keys.{string_discrete}

-- What the cache answers is decided by the element of the key.
answer : {V : Type 0} → ℕ → ℕ → Option (Element V) → Option V
answer ttl now none = none
answer ttl now (some e) = if outlived ttl now e.entry then none else some e.entry.value

answer-ite :
    {V Q : Type 0} (ttl now : ℕ) (d : Dec Q) (o : Option (Element V))
    → answer ttl now (ite d none o) ≡ ite d none (answer ttl now o)
unfolding answer
answer-ite ttl now (yes q) o = refl
answer-ite ttl now (no n) o = refl

module _ {V : Type 0} (c : LruCache V) (a : Agrees c) where
  get-answer : (now : ℕ) (k : String) → (get c now k).1 ≡ answer c.ttl now (find_key k c.lru_list)
  unfolding answer ideal_get
  get-answer now k =
      let g = get-GetsLike c a now k in
      let r = recall-entries_of k c.lru_list in
      elim (Option-cases (find_key k c.lru_list)) [
        | inl h ↦
            let unseen : recall k (entries c) ≡ none = r ∙ ap entry_of h in
            rw (g.answer, unseen, ideal_get, h, answer) refl
        | inr (e, h) ↦
            let seen : recall k (entries c) ≡ some e.entry = r ∙ ap entry_of h in
            rw (g.answer, seen, ideal_get, h, answer) (ground arith)
      ]

  deleted :
      (k q : String)
      → find_key q (delete c k).lru_list ≡ ite (string_discrete k q) none (find_key q c.lru_list)
  unfolding delete remove_element
  deleted k q = elim (Option-cases (find_key k c.lru_list)) [
    | inl h ↦ rw (missed c a k h, delete) (ground arith)
    | inr (e, h) ↦
        let f = found c a k h in
        rw (f.0, delete) (rw f.2 (find_key-erase_key k q c.lru_list a.distinct))
  ]

-- After a Delete, a Get of the key finds nothing, and a Get of any other key answers as it did,
-- where the cache's map and list agree.
pub get-delete :
    {V : Type 0} (c : LruCache V) (now : ℕ) (k q : String)
    → Agrees c
    → (get (delete c k) now q).1 ≡ ite (string_discrete k q) none (get c now q).1
unfolding answer
get-delete c now k q a =
    let p = delete-PutsLike c a k in
    let after = get-answer (delete c k) p.agrees now q in
    let before = get-answer c a now q in
    rw (after, before, deleted c a k q, p.limits.1)
      (answer-ite c.ttl now (string_discrete k q) (find_key q c.lru_list))
