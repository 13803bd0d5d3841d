-- ===== src/Buffer/Lru/Queue.antt =====
-- The LRU replacer of src/buffer/lru_replacer.cpp against a plain queue of frames without
-- repetitions: the list and the map of iterators stay in step.
use lettydb.Common.{
  ℕ, suc, ◌≤◌, ◌<◌, ◌≡◌, refl, List, [], ◌∷◌, ◌++◌, true, false, Option, none, some, arith, ◌==◌,
  if◌then◌else◌, ℕ_discrete, elem, remove, IsDistinct, elem-remove, remove_absent,
}
use lettydb.Common.Maps
use lettydb.Buffer.Lru.{Node, LruPageReplacer, erase_node}

-- The frames of the list, least recently used first.
abbrev pub frames : List Node → List ℕ
frames [] = []
frames (n ∷ ns) = n.frame ∷ frames ns

abbrev pub queue : LruPageReplacer → List ℕ
queue r = frames r.lru_list

-- The address of the node that holds a frame.
abbrev pub address_of : ℕ → List Node → Option ℕ
address_of f [] = none
address_of f (n ∷ ns) = if n.frame == f then some n.address else address_of f ns

abbrev pub Below : ℕ → List Node → Type 0
Below b [] = Unit {0}
Below b (n ∷ ns) = (n.address < b) × Below b ns

abbrev pub addresses : List Node → List ℕ
addresses [] = []
addresses (n ∷ ns) = n.address ∷ addresses ns

pub record IsValid (r : LruPageReplacer) : Type 0 where
  pub distinct : IsDistinct (queue r)
  pub own_node : IsDistinct (addresses r.lru_list)
  pub below : Below r.next_address r.lru_list
  pub agrees : (f : ℕ) → Maps.find ℕ_discrete f r.map ≡ address_of f r.lru_list

pub address_of-none : (f : ℕ) (ns : List Node) → address_of f ns ≡ none → elem f (frames ns) ≡ false
address_of-none f [] h = refl
address_of-none f (n ∷ ns) h = ground (arith, address_of-none f ns)

pub address_of-some :
    (f a : ℕ) (ns : List Node)
    → address_of f ns ≡ some a
    → (elem f (frames ns) ≡ true) × (elem a (addresses ns) ≡ true)
address_of-some f a [] h = cc
address_of-some f a (n ∷ ns) h = ground (arith, address_of-some f a ns)

pub address_of_absent :
    (f : ℕ) (ns : List Node) → elem f (frames ns) ≡ false → address_of f ns ≡ none
address_of_absent f [] h = refl
address_of_absent f (n ∷ ns) h = ground (arith, address_of_absent f ns)

-- Erasing the node at a frame's iterator takes that frame out of the queue, and no other.
pub frames-erase_node :
    (f a : ℕ) (ns : List Node)
    → IsDistinct (frames ns)
    → IsDistinct (addresses ns)
    → address_of f ns ≡ some a
    → frames (erase_node a ns) ≡ remove f (frames ns)
frames-erase_node f a [] d e h = cc
frames-erase_node f a (n ∷ ns) d e h =
    ground
      (arith, frames-erase_node f a ns d.1 e.1, address_of-some f a ns, remove_absent f (frames ns))

pub elem-addresses-erase_node :
    (a b : ℕ) (ns : List Node)
    → elem b (addresses ns) ≡ false
    → elem b (addresses (erase_node a ns)) ≡ false
elem-addresses-erase_node a b [] h = refl
elem-addresses-erase_node a b (n ∷ ns) h = ground (arith, elem-addresses-erase_node a b ns)

pub addresses-erase_node :
    (a : ℕ) (ns : List Node) → IsDistinct (addresses ns) → IsDistinct (addresses (erase_node a ns))
addresses-erase_node a [] d = tt
addresses-erase_node a (n ∷ ns) d =
    ground (arith, addresses-erase_node a ns d.1, elem-addresses-erase_node a n.address ns d.0)

pub erase_node-Below : (a b : ℕ) (ns : List Node) → Below b ns → Below b (erase_node a ns)
erase_node-Below a b [] h = tt
erase_node-Below a b (n ∷ ns) h = ground (arith, erase_node-Below a b ns h.1)

pub address_of-erase_node :
    (f g a : ℕ) (ns : List Node)
    → IsDistinct (frames ns)
    → IsDistinct (addresses ns)
    → address_of f ns ≡ some a
    → address_of g (erase_node a ns) ≡ (if f == g then none else address_of g ns)
address_of-erase_node f g a [] d e h = cc
address_of-erase_node f g a (n ∷ ns) d e h =
    ground (
      arith,
      address_of-erase_node f g a ns d.1 e.1,
      address_of-some f a ns,
      address_of_absent g ns,
    )

pub remove-IsDistinct : (k : ℕ) (xs : List ℕ) → IsDistinct xs → IsDistinct (remove k xs)
remove-IsDistinct k [] d = tt
remove-IsDistinct k (x ∷ xs) d = ground (arith, elem-remove k x xs, remove-IsDistinct k xs d.1)

pub Below-elem : (a b : ℕ) (ns : List Node) → Below b ns → b ≤ a → elem a (addresses ns) ≡ false
Below-elem a b [] h k = refl
Below-elem a b (n ∷ ns) h k = ground (arith, Below-elem a b ns h.1 k)

pub Below-append :
    (b f : ℕ) (ns : List Node)
    → Below b ns
    → Below (suc b) (ns ++ record { address = b; frame = f } ∷ [])
Below-append b f [] h = omega arith
Below-append b f (n ∷ ns) h = (omega arith, Below-append b f ns h.1)

pub frames-append : (ns ms : List Node) → frames (ns ++ ms) ≡ frames ns ++ frames ms
frames-append [] ms = refl
frames-append (n ∷ ns) ms = rw (frames-append ns ms)

pub addresses-append : (ns ms : List Node) → addresses (ns ++ ms) ≡ addresses ns ++ addresses ms
addresses-append [] ms = refl
addresses-append (n ∷ ns) ms = rw (addresses-append ns ms)

pub address_of-append :
    (f g b : ℕ) (ns : List Node)
    → address_of f ns ≡ none
    → address_of g (ns ++ record { address = b; frame = f } ∷ [])
      ≡ (if f == g then some b else address_of g ns)
address_of-append f g b [] h = ground arith
address_of-append f g b (n ∷ ns) h = ground (arith, address_of-append f g b ns)
