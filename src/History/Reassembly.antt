-- ===== src/History/Reassembly.antt =====
-- The window of `streamLogPages` in src/rpc/history.ts: pages of several streams arrive in any
-- order, wait in `ready`, and leave in the order of the blocks. For `backward` the model's cursor
-- and keys are the source's plus one, since the source's cursor may reach -1.
pub mod Order
use ether_state.Prelude.{
  ℕ, zero, suc, ◌+◌, ◌≤◌, ◌<◌, ◌≡◌, ◌≢◌, refl, sym, ap, subst, ◌∙◌, Bool, true, false, ◌||◌, Option,
  none, some, List, [], ◌∷◌, ◌++◌, ◌==◌, ==_iff, if◌then◌else◌, length, any, Bool-cases,
  Option-cases, inl, inr, arith, map,
}
use ether_state.Prelude.JsMap
use ether_state.Prelude.JsMap.{nat_eq}
use ether_state.History.{Direction, forward, backward}
use ether_state.History.Ranges.{Tiles, TilesDown, TilesIn}
use ether_state.History.Fetch.{Page}
use ether_state.History.Fetch.Split.{spans}

abbrev pub key : Direction → Page → ℕ
key forward page = page.range.from
key backward page = page.range.through + 1

abbrev pub next_cursor : Direction → Page → ℕ
next_cursor forward page = page.range.through + 1
next_cursor backward page = page.range.from

pub record Window : Type 0 where
  pub output : List Page
  pub cursor : ℕ
  pub ready : List (ℕ × Page)

-- `while (ready.has(cursor))`, with fuel: each round takes an entry off `ready`.
pub collect : Direction → ℕ → ℕ → List (ℕ × Page) → Window
collect direction zero cursor ready = record { output = []; cursor = cursor; ready = ready }
collect direction (suc fuel) cursor ready = elim (JsMap.get cursor ready) [
  | none ↦ record { output = []; cursor = cursor; ready = ready }
  | some page ↦
      let rest = collect direction fuel (next_cursor direction page) (JsMap.delete cursor ready) in
      record rest { output = page ∷ rest.output }
]

-- What the window does with one page.
pub receive : Direction → ℕ → List (ℕ × Page) → Page → Window
unfolding collect
receive direction cursor ready page =
    let ready' = JsMap.set (key direction page) page ready in
    collect direction (length ready') cursor ready'

pub receive_all : Direction → ℕ → List (ℕ × Page) → List Page → List Page
unfolding receive
receive_all direction cursor ready [] = []
receive_all direction cursor ready (page ∷ pages) =
    let window = receive direction cursor ready page in
    window.output ++ receive_all direction window.cursor window.ready pages

-- The window's output, when the pages arrive in the order of the list.
pub reassemble : Direction → ℕ → List Page → List Page
unfolding receive_all
reassemble direction cursor pages = receive_all direction cursor [] pages
