-- ===== src/Cache/Elements.antt =====
-- Lists of elements by key and by identity.
use fusefs.Common.{
  ℕ, ◌≡◌, refl, String, List, [], ◌∷◌, Option, none, some, arith, ite, suc, length, ap,
  if◌then◌else◌, ◌==◌,
}
use fusefs.Common.Keys.{string_discrete}
use fusefs.Cache.{Element, find_id, erase_id, back}

module _ {V : Type 0} where
  unfoldable pub find_key : String → List (Element V) → Option (Element V)
  find_key k [] = none
  find_key k (e ∷ es) = ite (string_discrete e.key k) (some e) (find_key k es)

  unfoldable pub erase_key : String → List (Element V) → List (Element V)
  erase_key k [] = []
  erase_key k (e ∷ es) = ite (string_discrete e.key k) es (e ∷ erase_key k es)

  -- No two elements share a key or an identity.
  abbrev pub Distinct : List (Element V) → Type 0
  Distinct [] = Unit
  Distinct (e ∷ es) = (find_key e.key es ≡ none) × (find_id e.id es ≡ none) × Distinct es

  pub find_key-key :
      (k : String) (es : List (Element V)) {e : Element V} → find_key k es ≡ some e → e.key ≡ k
  unfolding find_key
  find_key-key k [] h = absurd (cc h)
  find_key-key k (f ∷ es) {e} h = ground (arith, find_key-key k es {e = e})

  -- By key and by identity the same element is found and erased.
  pub find_id-find_key :
      (k : String) (es : List (Element V)) {e : Element V}
      → Distinct es
      → find_key k es ≡ some e
      → find_id e.id es ≡ some e
  unfolding find_key find_id
  find_id-find_key k [] d h = absurd (cc h)
  find_id-find_key k (f ∷ es) {e} d h = ground (arith, find_id-find_key k es {e = e} d.2)

  pub erase_id-find_key :
      (k : String) (es : List (Element V)) {e : Element V}
      → Distinct es
      → find_key k es ≡ some e
      → erase_id e.id es ≡ erase_key k es
  unfolding find_key erase_id erase_key
  erase_id-find_key k [] d h = absurd (cc h)
  erase_id-find_key k (f ∷ es) {e} d h =
      ground (arith, erase_id-find_key k es {e = e} d.2, find_id-find_key k es {e = e} d.2)

  pub find_key-erase_key :
      (k q : String) (es : List (Element V))
      → Distinct es
      → find_key q (erase_key k es) ≡ ite (string_discrete k q) none (find_key q es)
  unfolding find_key erase_key
  find_key-erase_key k q [] d = ground arith
  find_key-erase_key k q (f ∷ es) d = ground (arith, find_key-erase_key k q es d.2)

  pub find_id-erase_key :
      (k : String) (i : ℕ) (es : List (Element V))
      → find_id i es ≡ none
      → find_id i (erase_key k es) ≡ none
  unfolding find_id erase_key
  find_id-erase_key k i [] h = refl
  find_id-erase_key k i (f ∷ es) h = ground (arith, find_id-erase_key k i es)

  pub erase_key-Distinct :
      (k : String) (es : List (Element V)) → Distinct es → Distinct (erase_key k es)
  unfolding erase_key
  erase_key-Distinct k [] d = tt
  erase_key-Distinct k (f ∷ es) d = ground (
    arith,
    erase_key-Distinct k es d.2,
    find_key-erase_key k f.key es d.2,
    find_id-erase_key k f.id es,
  )

  pub length-erase_key :
      (k : String) (es : List (Element V)) {e : Element V}
      → find_key k es ≡ some e
      → suc (length (erase_key k es)) ≡ length es
  unfolding find_key erase_key
  length-erase_key k [] h = absurd (cc h)
  length-erase_key k (f ∷ es) {e} h = ground (arith, length-erase_key k es {e = e})

  -- The list without its last element.
  unfoldable pub drop_last : List (Element V) → List (Element V)
  drop_last [] = []
  drop_last (e ∷ []) = []
  drop_last (e ∷ f ∷ es) = e ∷ drop_last (f ∷ es)

  -- The last element is the one that its key finds, and the list without it is what its erasure
  -- leaves.
  pub back-find_key :
      (es : List (Element V)) {e : Element V}
      → Distinct es
      → back es ≡ some e
      → (find_key e.key es ≡ some e) × (erase_key e.key es ≡ drop_last es)
  unfolding back find_key erase_key drop_last
  back-find_key [] d h = absurd (cc h)
  back-find_key (f ∷ []) d h = (ground arith, ground arith)
  back-find_key (f ∷ g ∷ es) {e} d h =
      let ih = back-find_key (g ∷ es) {e = e} d.2 h in
      elim (string_discrete f.key e.key) [
        | yes p ↦ absurd (differ p ih.0)
        | no n ↦ ground (arith, n, ih)
      ]
    where
      differ : f.key ≡ e.key → find_key e.key (g ∷ es) ≡ some e → ⊥
      differ p h' = cc (d.0, ap (λ k. find_key k (g ∷ es)) p, h')

  pub back_nonempty :
      (e : Element V) (es : List (Element V)) → (f : Element V) × (back (e ∷ es) ≡ some f)
  unfolding back
  back_nonempty e [] = (e, refl)
  back_nonempty e (f ∷ es) = back_nonempty f es

  pub find_id-cons :
      (i : ℕ) (e : Element V) (es : List (Element V))
      → find_id i (e ∷ es) ≡ (if e.id == i then some e else find_id i es)
  unfolding find_id
  find_id-cons i e es = refl

  pub find_key-cons :
      (k : String) (e : Element V) (es : List (Element V))
      → find_key k (e ∷ es) ≡ ite (string_discrete e.key k) (some e) (find_key k es)
  unfolding find_key
  find_key-cons k e es = refl

  pub find_id-erase_key_self :
      (k : String) (es : List (Element V)) {e : Element V}
      → Distinct es
      → find_key k es ≡ some e
      → find_id e.id (erase_key k es) ≡ none
  unfolding find_key erase_key find_id
  find_id-erase_key_self k [] d h = refl
  find_id-erase_key_self k (f ∷ es) {e} d h =
      ground (arith, find_id-erase_key_self k es {e = e} d.2, find_id-find_key k es {e = e} d.2)

  pub back-none : (es : List (Element V)) → back es ≡ none → es ≡ []
  unfolding back
  back-none [] h = refl
  back-none (e ∷ es) h = let (f, g) = back_nonempty e es in cc (g, h)
