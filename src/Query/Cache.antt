-- ===== src/Query/Cache.antt =====
-- What the cache holds.
use ether_state.Prelude.{
  ℕ, zero, suc, ◌-◌, ◌≤◌, ◌<◌, ◌≡◌, refl, sym, inl, inr, false, none, some, List, [], ◌∷◌, ◌++◌,
  ltb, ◌==◌, ==_iff, length, drop, Bool-cases, arith,
}
use ether_state.Prelude.JsMap
use ether_state.Prelude.JsMap.{nat_eq, IsMap}
use ether_state.Query.{Coordinator, evict, store, get_query, gives}

pub length-evict : (capacity : ℕ) (m : List (ℕ × ℕ)) → length (evict capacity m) ≤ capacity
unfolding evict
length-evict capacity [] = omega arith
length-evict capacity (e ∷ m) = ground (arith, length-evict capacity m)

pub evict-IsMap : (capacity : ℕ) (m : List (ℕ × ℕ)) → IsMap m → IsMap (evict capacity m)
unfolding evict
evict-IsMap capacity [] d = tt
evict-IsMap capacity (e ∷ m) d = ground (arith, evict-IsMap capacity m d.1, d)

drop-nil : (n : ℕ) → drop {A = ℕ × ℕ} n [] ≡ []
drop-nil zero = refl
drop-nil (suc n) = refl

-- Eviction takes entries off the front, just enough of them.
evict-drop : (capacity : ℕ) (m : List (ℕ × ℕ)) → evict capacity m ≡ drop (length m - capacity) m
unfolding evict
evict-drop capacity [] = sym (drop-nil (0 - capacity))
evict-drop capacity (e ∷ m) = elim (Bool-cases (ltb capacity (suc (length m)))) [
  | inl over ↦
      let more : suc (length m) - capacity ≡ suc (length m - capacity) = ground (arith, over) in
      rw (over, more) (evict-drop capacity m)
  | inr fits ↦
      let none_over : suc (length m) - capacity ≡ 0 = ground (arith, fits) in
      rw (fits, none_over) refl
]

get-append_last :
    (key value : ℕ) (m : List (ℕ × ℕ))
    → JsMap.get key m ≡ none
    → JsMap.get key (m ++ (key, value) ∷ []) ≡ some value
get-append_last key value [] h = ground arith
get-append_last key value ((j, w) ∷ m) h = ground (arith, get-append_last key value m, h)

-- The last entry stays, if anything may.
get-evict_last :
    (capacity key value : ℕ) (m : List (ℕ × ℕ))
    → 0 < capacity
    → JsMap.get key m ≡ none
    → JsMap.get key (evict capacity (m ++ (key, value) ∷ [])) ≡ some value
unfolding evict
get-evict_last capacity key value [] pos h = ground arith
get-evict_last capacity key value ((j, w) ∷ m) pos h =
    let last = m ++ (key, value) ∷ [] in
    elim (Bool-cases (ltb capacity (suc (length last)))) [
      | inl over ↦
          let rest = get-evict_last capacity key value m pos (ground (arith, h)) in rw over rest
      | inr fits ↦ rw fits (get-append_last key value ((j, w) ∷ m) h)
    ]

-- The cache with an entry put last, as the one used last.
abbrev pub renewed : ℕ → ℕ → List (ℕ × ℕ) → List (ℕ × ℕ)
renewed key value m = JsMap.delete key m ++ (key, value) ∷ []

absent : (key : ℕ) (m : List (ℕ × ℕ)) → JsMap.get key (JsMap.delete key m) ≡ none
absent key m = ground (arith, JsMap.get-delete key key m)

set-renewed :
    (key value : ℕ) (m : List (ℕ × ℕ))
    → JsMap.set key value (JsMap.delete key m) ≡ renewed key value m
set-renewed key value m = JsMap.set-absent key value (JsMap.delete key m) (absent key m)

-- Where the capacity is positive, `store` puts the entry last, in place of an older one of its key,
-- and drops as many entries off the front as are over the capacity: no more are left than the
-- capacity, and the stored value is one of them.
pub store_lem :
    (key value : ℕ) (s : Coordinator)
    → 0 < s.capacity
    → ((store key value s).completed
        ≡ drop
            (length (renewed key value s.completed) - s.capacity)
            (renewed key value s.completed))
      × (length (store key value s).completed ≤ s.capacity)
      × (JsMap.get key (store key value s).completed ≡ some value)
unfolding store
store_lem key value s pos =
    let caches : (s.capacity == 0) ≡ false = ground (arith, pos) in
    rw (caches, store, set-renewed key value s.completed)
      (
        evict-drop s.capacity (renewed key value s.completed),
        length-evict s.capacity (renewed key value s.completed),
        get-evict_last s.capacity key value (JsMap.delete key s.completed) pos
            (absent key s.completed),
      )

-- A `get` of a key that is in the cache gives the cached value, makes its entry the one used last,
-- and changes no other entry.
pub get_query_cached :
    (key value : ℕ) (s : Coordinator)
    → JsMap.get key s.completed ≡ some value
    → ((get_query key s).0 ≡ gives value)
      × ((get_query key s).1.completed ≡ renewed key value s.completed)
      × ((k : ℕ) → JsMap.get k (get_query key s).1.completed ≡ JsMap.get k s.completed)
unfolding get_query
get_query_cached key value s h =
    rw (h, get_query)
      (
        refl,
        set-renewed key value s.completed,
        λ k. ground (
          arith,
          h,
          JsMap.get-set key k value (JsMap.delete key s.completed),
          JsMap.get-delete key k s.completed,
          ==_iff key k,
        ),
      )
