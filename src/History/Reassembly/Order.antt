-- ===== src/History/Reassembly/Order.antt =====
-- The window of `streamLogPages` gives its pages back in order, whatever the order of arrival.
use ether_state.Prelude.{
  ℕ, zero, suc, ◌+◌, ◌≤◌, ◌<◌, ◌≡◌, refl, sym, ap, ◌∙◌, Bool, true, false, ◌||◌, Option, none, some,
  List, [], ◌∷◌, ◌++◌, ◌==◌, ==_iff, if◌then◌else◌, length, any, Bool-cases, Option-cases, inl, inr,
  arith, ◌⊎◌,
}
use ether_state.Prelude.JsMap
use ether_state.Prelude.JsMap.{nat_eq}
use ether_state.Coverage.{BlockRange}
use ether_state.History.{Direction, forward, backward}
use ether_state.History.Ranges.{Tiles, TilesDown, TilesIn}
use ether_state.History.Fetch.{Page}
use ether_state.History.Fetch.Split.{spans, Each}
use ether_state.History.Reassembly.{
  key, next_cursor, Window, collect, receive, receive_all, reassemble,
}

module _ (direction : Direction) where
  abbrev pub page_at : ℕ → List Page → Option Page
  page_at k [] = none
  page_at k (p ∷ ps) = if key direction p == k then some p else page_at k ps

  abbrev pub arrives : ℕ → List Page → Bool
  arrives k pages = any (λ p. key direction p == k) pages

  -- Each page starts where the one before ends, and no page comes twice.
  abbrev pub IsChain : ℕ → ℕ → List Page → Type 0
  IsChain cursor end [] = cursor ≡ end
  IsChain cursor end (p ∷ ps) =
      (key direction p ≡ cursor)
      × (page_at (key direction p) ps ≡ none)
      × IsChain (next_cursor direction p) end ps

  module _ (pages : List Page) (end : ℕ) (beyond : page_at end pages ≡ none) where
    -- `rest` is what has not left yet, and `seen` tells which keys have arrived.
    record Inv (seen : ℕ → Bool) (cursor : ℕ) (ready : List (ℕ × Page)) (rest : List Page)
        : Type 0 where
      chain : IsChain cursor end rest
      known : (k : ℕ) (q : Page) → JsMap.get k ready ≡ some q → page_at k pages ≡ some q
      waits :
          (k : ℕ) (q : Page)
          → page_at k rest ≡ some q
          → JsMap.get k ready ≡ (if seen k then some q else none)
      within : (k : ℕ) (q : Page) → page_at k rest ≡ some q → page_at k pages ≡ some q

    later :
        (k : ℕ) (h q : Page) (rest : List Page)
        → page_at (key direction h) rest ≡ none
        → page_at k rest ≡ some q
        → page_at k (h ∷ rest) ≡ some q
    later k h q rest n e = elim (Bool-cases (key direction h == k)) [
      | inl same ↦ cc (n, e, ap (λ j. page_at j rest) ((==_iff _ _).0 same))
      | inr other ↦ rw other e
    ]

    leave :
        (seen : ℕ → Bool) (cursor : ℕ) (ready : List (ℕ × Page)) (h : Page) (rest : List Page)
        → Inv seen cursor ready (h ∷ rest)
        → Inv seen (next_cursor direction h) (JsMap.delete cursor ready) rest
    leave seen cursor ready h rest v = record {
      chain = v.chain.2;
      known = λ k q e. v.known k q (ground (arith, JsMap.get-delete cursor k ready));
      waits = λ k q e. ground (
        arith,
        JsMap.get-delete cursor k ready,
        v.waits k q (later k h q rest v.chain.1 e),
        v.chain.0,
        v.chain.1,
      );
      within = λ k q e. v.within k q (later k h q rest v.chain.1 e);
    }

    -- What a round of the loop leaves: a part of `rest` has left, and the cursor's page is not there.
    record Left (seen : ℕ → Bool) (window : Window) (rest : List Page) : Type 0 where
      remaining : List Page
      split : window.output ++ remaining ≡ rest
      inv : Inv seen window.cursor window.ready remaining
      stuck : JsMap.get window.cursor window.ready ≡ none
      still : (k : ℕ) (q : Page) → page_at k remaining ≡ some q → page_at k rest ≡ some q

    empty_stuck :
        (seen : ℕ → Bool) (cursor : ℕ) (ready : List (ℕ × Page))
        → Inv seen cursor ready []
        → JsMap.get cursor ready ≡ none
    empty_stuck seen cursor ready v = elim (Option-cases (JsMap.get cursor ready)) [
      | inl e ↦ e
      | inr (p, e) ↦ cc (v.known cursor p e, ap (λ k. page_at k pages) v.chain, beyond)
    ]

    is_head :
        (seen : ℕ → Bool) (cursor : ℕ) (ready : List (ℕ × Page)) (x : Page) (rest : List Page)
        (p : Page)
        → Inv seen cursor ready (x ∷ rest)
        → JsMap.get cursor ready ≡ some p
        → p ≡ x
    is_head seen cursor ready x rest p v e =
        ground (arith, v.waits cursor x (rw ((==_iff _ _).1 v.chain.0)), v.chain.0)

    collect-Left :
        (seen : ℕ → Bool) (fuel cursor : ℕ) (ready : List (ℕ × Page)) (rest : List Page)
        → length ready ≤ fuel
        → Inv seen cursor ready rest
        → Left seen (collect direction fuel cursor ready) rest
    unfolding collect
    collect-Left seen zero cursor [] rest h v = record {
      remaining = rest;
      split = refl;
      inv = v;
      stuck = refl;
      still = λ k q h. h;
    }
    collect-Left seen zero cursor (x ∷ ready) rest h v = absurd (omega arith)
    collect-Left seen (suc fuel) cursor ready [] h v =
        let e = empty_stuck seen cursor ready v in
        rw (e, collect)
          (record { remaining = []; split = refl; inv = v; stuck = e; still = λ k q h. h })
    collect-Left seen (suc fuel) cursor ready (x ∷ rest) h v =
        elim (Option-cases (JsMap.get cursor ready)) [
          | inl e ↦
              rw (e, collect)
                (record {
                  remaining = x ∷ rest;
                  split = refl;
                  inv = v;
                  stuck = e;
                  still = λ k q h. h;
                })
          | inr (p, e) ↦
              let e' : JsMap.get cursor ready ≡ some x =
                e ∙ ap some (is_head seen cursor ready x rest p v e) in
              let left =
                collect-Left seen fuel (next_cursor direction x) (JsMap.delete cursor ready) rest
                  (omega (arith, JsMap.length-delete_lt cursor x ready e'))
                  (leave seen cursor ready x rest v) in
              rw (e', collect)
                (record {
                  remaining = left.remaining;
                  split = ap (λ l. x ∷ l) left.split;
                  inv = left.inv;
                  stuck = left.stuck;
                  still = λ k q m. later k x q rest v.chain.1 (left.still k q m);
                })
        ]

    receive-Inv :
        (seen : ℕ → Bool) (cursor : ℕ) (ready : List (ℕ × Page)) (rest : List Page) (p : Page)
        → page_at (key direction p) pages ≡ some p
        → Inv seen cursor ready rest
        → Inv
            (λ k. seen k || key direction p == k)
            cursor
            (JsMap.set (key direction p) p ready)
            rest
    receive-Inv seen cursor ready rest p known v = record {
      chain = v.chain;
      known = λ k q e. ground (arith, JsMap.get-set (key direction p) k p ready, v.known k q);
      waits = λ k q e. ground (
        arith,
        JsMap.get-set (key direction p) k p ready,
        v.waits k q e,
        v.within k q e,
        ==_iff (key direction p) k,
      );
      within = v.within;
    }

    finished :
        (seen : ℕ → Bool) (cursor : ℕ) (ready : List (ℕ × Page)) (rest : List Page)
        → Inv seen cursor ready rest
        → JsMap.get cursor ready ≡ none
        → ((k : ℕ) (q : Page) → page_at k rest ≡ some q → seen k ≡ true)
        → rest ≡ []
    finished seen cursor ready [] v e all_seen = refl
    finished seen cursor ready (x ∷ rest) v e all_seen =
        let here : page_at cursor (x ∷ rest) ≡ some x = rw ((==_iff _ _).1 v.chain.0) in
        ground (arith, v.waits cursor x here, all_seen cursor x here)

    receive_all-eq-rest :
        (seen : ℕ → Bool) (cursor : ℕ) (ready : List (ℕ × Page)) (rest arrivals : List Page)
        → Inv seen cursor ready rest
        → JsMap.get cursor ready ≡ none
        → Each (λ p. page_at (key direction p) pages ≡ some p) arrivals
        → ((k : ℕ) (q : Page) → page_at k rest ≡ some q → (seen k || arrives k arrivals) ≡ true)
        → receive_all direction cursor ready arrivals ≡ rest
    unfolding receive_all receive
    receive_all-eq-rest seen cursor ready rest [] v e known all_seen =
        sym (finished seen cursor ready rest v e (λ k q h. ground (arith, all_seen k q h)))
    receive_all-eq-rest seen cursor ready rest (p ∷ arrivals) v e known all_seen =
        let ready' = JsMap.set (key direction p) p ready in
        let left =
          collect-Left (λ k. seen k || key direction p == k) (length ready') cursor ready' rest
            (omega arith) (receive-Inv seen cursor ready rest p known.0 v) in
        let window = collect direction (length ready') cursor ready' in
        ap (λ l. window.output ++ l)
          (receive_all-eq-rest (λ k. seen k || key direction p == k) window.cursor window.ready
            left.remaining arrivals left.inv left.stuck known.1
            (λ k q h. ground (arith, all_seen k q (left.still k q h))))
        ∙ left.split

Tiles-le : (size start stop : ℕ) (rs : List BlockRange) → Tiles size start stop rs → start ≤ stop
Tiles-le size start stop [] t = omega arith
Tiles-le size start stop (r ∷ rs) t = omega (arith, Tiles-le size (r.through + 1) stop rs t.3)

TilesDown-le :
    (size start stop : ℕ) (rs : List BlockRange) → TilesDown size start stop rs → start ≤ stop
TilesDown-le size start stop [] t = omega arith
TilesDown-le size start stop (r ∷ rs) t = omega (arith, TilesDown-le size start r.from rs t.3)

page_at-Tiles :
    (size start stop k : ℕ) (ps : List Page)
    → Tiles size start stop (spans ps)
    → (k < start) ⊎ (stop ≤ k)
    → page_at forward k ps ≡ none
page_at-Tiles size start stop k [] t h = refl
page_at-Tiles size start stop k (p ∷ ps) t h = ground (
  arith,
  page_at-Tiles size (p.range.through + 1) stop k ps t.3,
  Tiles-le size (p.range.through + 1) stop (spans ps) t.3,
)

page_at-TilesDown :
    (size start stop k : ℕ) (ps : List Page)
    → TilesDown size start stop (spans ps)
    → (k ≤ start) ⊎ (stop < k)
    → page_at backward k ps ≡ none
page_at-TilesDown size start stop k [] t h = refl
page_at-TilesDown size start stop k (p ∷ ps) t h = ground (
  arith,
  page_at-TilesDown size start p.range.from k ps t.3,
  TilesDown-le size start p.range.from (spans ps) t.3,
)

IsChain-Tiles :
    (size start stop : ℕ) (ps : List Page)
    → Tiles size start stop (spans ps)
    → IsChain forward start stop ps
IsChain-Tiles size start stop [] t = t
IsChain-Tiles size start stop (p ∷ ps) t = (
  t.0,
  page_at-Tiles size (p.range.through + 1) stop p.range.from ps t.3 (inl (omega arith)),
  IsChain-Tiles size (p.range.through + 1) stop ps t.3,
)

IsChain-TilesDown :
    (size start stop : ℕ) (ps : List Page)
    → TilesDown size start stop (spans ps)
    → IsChain backward stop start ps
IsChain-TilesDown size start stop [] t = sym t
IsChain-TilesDown size start stop (p ∷ ps) t = (
  t.0,
  page_at-TilesDown size start p.range.from (p.range.through + 1) ps t.3 (inr (omega arith)),
  IsChain-TilesDown size start p.range.from ps t.3,
)

-- Where the window starts: at its first block, or for `backward` behind its last.
abbrev pub first_cursor : Direction → ℕ → ℕ → ℕ
first_cursor forward start stop = start
first_cursor backward start stop = stop

last_cursor : Direction → ℕ → ℕ → ℕ
last_cursor forward start stop = stop
last_cursor backward start stop = start

TilesIn-IsChain :
    (direction : Direction) (size start stop : ℕ) (pages : List Page)
    → TilesIn direction size start stop (spans pages)
    → IsChain direction (first_cursor direction start stop) (last_cursor direction start stop) pages
      × (page_at direction (last_cursor direction start stop) pages ≡ none)
unfolding last_cursor
TilesIn-IsChain forward size start stop pages t = (
  IsChain-Tiles size start stop pages t,
  page_at-Tiles size start stop stop pages t (inr (omega arith)),
)
TilesIn-IsChain backward size start stop pages t = (
  IsChain-TilesDown size start stop pages t,
  page_at-TilesDown size start stop start pages t (inl (omega arith)),
)

-- Let `pages` tile the blocks of a window in the given direction. Whatever the order in which its
-- pages arrive, where each arrival is one of the pages and each page arrives, the window gives out
-- exactly `pages`, in their order and each once.
pub reassemble_lem :
    (direction : Direction) (size start stop : ℕ) (pages arrivals : List Page)
    → TilesIn direction size start stop (spans pages)
    → Each (λ p. page_at direction (key direction p) pages ≡ some p) arrivals
    → ((k : ℕ) (p : Page)
        → page_at direction k pages ≡ some p
        → arrives direction k arrivals ≡ true)
    → reassemble direction (first_cursor direction start stop) arrivals ≡ pages
unfolding reassemble
reassemble_lem direction size start stop pages arrivals t known all_come =
    let (chain, beyond) = TilesIn-IsChain direction size start stop pages t in
    receive_all-eq-rest direction pages (last_cursor direction start stop) beyond (λ k. false)
      (first_cursor direction start stop) [] pages arrivals
      (record { chain = chain; known = λ k q e. cc; waits = λ k q e. refl; within = λ k q e. e })
      refl known all_come
