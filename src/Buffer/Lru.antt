-- ===== src/Buffer/Lru.antt =====
-- src/buffer/lru_replacer.h and lru_replacer.cpp. `std::list` is a list of nodes, each with its
-- address; an iterator is the address of a node, and `map_` takes a frame to its iterator.
pub mod Queue
pub mod Refines
use lettydb.Common.{
  ℕ, suc, List, [], ◌∷◌, ◌++◌, Option, none, some, ◌==◌, if◌then◌else◌, ℕ_discrete,
}
use lettydb.Common.Maps

pub record Node : Type 0 where
  pub address : ℕ
  pub frame : ℕ

-- `next_address` is the address that the allocator gives to the next node.
pub record LruPageReplacer : Type 0 where
  pub lru_list : List Node
  pub map : List (ℕ × ℕ)
  pub next_address : ℕ

unfoldable pub empty : LruPageReplacer
empty = record { lru_list = []; map = []; next_address = 0 }

-- `lru_list_.erase(it)`: the node at the address goes.
abbrev pub erase_node : ℕ → List Node → List Node
erase_node it [] = []
erase_node it (n ∷ ns) = if n.address == it then ns else n ∷ erase_node it ns

unfoldable pub identify_frame_to_evict : LruPageReplacer → Option ℕ × LruPageReplacer
identify_frame_to_evict r = elim r.lru_list [
  | [] ↦ (none, r)
  | n ∷ rest ↦
      (some n.frame, record r { lru_list = rest; map = Maps.erase ℕ_discrete n.frame r.map })
]

unfoldable pub mark_not_evictable : ℕ → LruPageReplacer → LruPageReplacer
mark_not_evictable frame_id r = elim (Maps.find ℕ_discrete frame_id r.map) [
  | none ↦ r
  | some it ↦ record r {
    lru_list = erase_node it r.lru_list;
    map = Maps.erase ℕ_discrete frame_id r.map;
  }
]

unfoldable pub mark_evictable : ℕ → LruPageReplacer → LruPageReplacer
mark_evictable frame_id r = elim (Maps.find ℕ_discrete frame_id r.map) [
  | some it ↦ r
  | none ↦ record r {
    lru_list = r.lru_list ++ record { address = r.next_address; frame = frame_id } ∷ [];
    map = Maps.insert ℕ_discrete frame_id r.next_address r.map;
    next_address = suc r.next_address;
  }
]
