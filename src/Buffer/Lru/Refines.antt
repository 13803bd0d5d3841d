-- ===== src/Buffer/Lru/Refines.antt =====
-- What the three operations of src/buffer/lru_replacer.cpp do to the queue, and the replacer as an
-- instance of the interface that the buffer pool takes.
use lettydb.Common.{
  ℕ, ◌≡◌, refl, sym, ◌∙◌, List, [], ◌∷◌, ◌++◌, true, false, Option, none, some, arith, ◌==◌,
  if◌then◌else◌, ℕ_discrete, elem, remove, Option-cases, inl, inr, elem-append, elem-remove,
  append-IsDistinct, remove_absent, IsDistinct,
}
use lettydb.Common.Maps
use lettydb.Buffer.Replacer.{PageReplacer}
use lettydb.Buffer.Lru.{
  Node, LruPageReplacer, empty, identify_frame_to_evict, mark_not_evictable, mark_evictable,
}
use lettydb.Buffer.Lru.Queue.{
  frames, queue, addresses, address_of, IsValid, address_of-none, address_of-some,
  address_of_absent, frames-erase_node, addresses-erase_node, erase_node-Below,
  address_of-erase_node, remove-IsDistinct, Below-elem, Below-append, frames-append,
  addresses-append, address_of-append,
}

pub empty-IsValid : IsValid empty
unfolding empty Maps.find
empty-IsValid = record { distinct = tt; own_node = tt; below = tt; agrees = λ f. refl }

-- The front of the queue is the victim; the rest stays in order.
abbrev pub pop_front : List ℕ → Option ℕ × List ℕ
pop_front [] = (none, [])
pop_front (f ∷ q) = (some f, q)

identify_list :
    (r : LruPageReplacer) (ns : List Node)
    → r.lru_list ≡ ns
    → ((identify_frame_to_evict r).0, queue (identify_frame_to_evict r).1) ≡ pop_front (frames ns)
unfolding identify_frame_to_evict
identify_list r [] e = ground arith
identify_list r (n ∷ ns) e = ground arith

identify_list-IsValid :
    (r : LruPageReplacer) (ns : List Node)
    → r.lru_list ≡ ns
    → IsValid r
    → IsValid (identify_frame_to_evict r).1
unfolding identify_frame_to_evict
identify_list-IsValid r [] e v = rw (e, identify_frame_to_evict) v
identify_list-IsValid r (n ∷ ns) e v =
    rw (e, identify_frame_to_evict)
      (record {
        distinct = let d = rw e at v.distinct in d.1;
        own_node = let d = rw e at v.own_node in d.1;
        below = let d = rw e at v.below in d.1;
        agrees = λ f. ground (
          arith,
          v.agrees f,
          v.distinct,
          Maps.find-erase ℕ_discrete n.frame f r.map,
          address_of_absent f ns,
        );
      })

pub identify-IsValid : (r : LruPageReplacer) → IsValid r → IsValid (identify_frame_to_evict r).1
identify-IsValid r v = identify_list-IsValid r r.lru_list refl v

-- On a well-formed replacer, `identify_frame_to_evict` answers with the front of the queue of
-- candidates and takes it off, or with none if the queue is empty, and the replacer stays well
-- formed: its map has the frames of the queue and no other.
pub queue-identify_frame_to_evict :
    (r : LruPageReplacer)
    → IsValid r
    → (((identify_frame_to_evict r).0, queue (identify_frame_to_evict r).1) ≡ pop_front (queue r))
      × IsValid (identify_frame_to_evict r).1
queue-identify_frame_to_evict r v = (identify_list r r.lru_list refl, identify-IsValid r v)

-- On a well-formed replacer, `mark_not_evictable` takes the frame out of the queue of candidates
-- and keeps the order of the others.
pub queue-mark_not_evictable :
    (f : ℕ) (r : LruPageReplacer) → IsValid r → queue (mark_not_evictable f r) ≡ remove f (queue r)
unfolding mark_not_evictable
queue-mark_not_evictable f r v = elim (Option-cases (Maps.find ℕ_discrete f r.map)) [
  | inl e ↦ ground (arith, v.agrees f, address_of-none f r.lru_list, remove_absent f (queue r))
  | inr (a, e) ↦ ground (arith, v.agrees f, frames-erase_node f a r.lru_list v.distinct v.own_node)
]

pub mark_not_evictable-IsValid :
    (f : ℕ) (r : LruPageReplacer) → IsValid r → IsValid (mark_not_evictable f r)
unfolding mark_not_evictable
mark_not_evictable-IsValid f r v = elim (Option-cases (Maps.find ℕ_discrete f r.map)) [
  | inl e ↦ rw (e, mark_not_evictable) v
  | inr (a, e) ↦
      let own : address_of f r.lru_list ≡ some a = sym (v.agrees f) ∙ e in
      rw (e, mark_not_evictable)
        (record {
          distinct =
              rw (frames-erase_node f a r.lru_list v.distinct v.own_node own)
                (remove-IsDistinct f (queue r) v.distinct);
          own_node = addresses-erase_node a r.lru_list v.own_node;
          below = erase_node-Below a r.next_address r.lru_list v.below;
          agrees = λ g. ground (
            arith,
            v.agrees g,
            Maps.find-erase ℕ_discrete f g r.map,
            address_of-erase_node f g a r.lru_list v.distinct v.own_node own,
          );
        })
]

-- On a well-formed replacer, `mark_evictable` puts a frame at the back of the queue of candidates,
-- and leaves the queue as it is if the frame is in it.
pub queue-mark_evictable :
    (f : ℕ) (r : LruPageReplacer)
    → IsValid r
    → queue (mark_evictable f r) ≡ (if elem f (queue r) then queue r else queue r ++ f ∷ [])
unfolding mark_evictable
queue-mark_evictable f r v = elim (Option-cases (Maps.find ℕ_discrete f r.map)) [
  | inl e ↦ ground (
    arith,
    v.agrees f,
    address_of-none f r.lru_list,
    frames-append r.lru_list (record { address = r.next_address; frame = f } ∷ []),
  )
  | inr (a, e) ↦ ground (arith, v.agrees f, address_of-some f a r.lru_list)
]

pub mark_evictable-IsValid :
    (f : ℕ) (r : LruPageReplacer) → IsValid r → IsValid (mark_evictable f r)
unfolding mark_evictable
mark_evictable-IsValid f r v = elim (Option-cases (Maps.find ℕ_discrete f r.map)) [
  | inl e ↦
      let new : address_of f r.lru_list ≡ none = sym (v.agrees f) ∙ e in
      let node : Node = record { address = r.next_address; frame = f } in
      rw (e, mark_evictable)
        (record {
          distinct =
              rw (frames-append r.lru_list (node ∷ []))
                (append-IsDistinct f (queue r) v.distinct (address_of-none f r.lru_list new));
          own_node = rw (addresses-append r.lru_list (node ∷ [])) (
              append-IsDistinct r.next_address (addresses r.lru_list) v.own_node
                (Below-elem r.next_address r.next_address r.lru_list v.below (omega arith)));
          below = Below-append r.next_address f r.lru_list v.below;
          agrees = λ g. ground (
            arith,
            v.agrees g,
            Maps.find-insert ℕ_discrete f g r.next_address r.map,
            address_of-append f g r.next_address r.lru_list new,
          );
        })
  | inr (a, e) ↦ rw (e, mark_evictable) v
]

pub identify-none :
    (r : LruPageReplacer)
    → IsValid r
    → (identify_frame_to_evict r).0 ≡ none
    → (f : ℕ) → elem f (queue r) ≡ false
identify-none r v e f = none_list (queue r) (identify_list r r.lru_list refl)
  where
    none_list :
        (q : List ℕ)
        → ((identify_frame_to_evict r).0, queue (identify_frame_to_evict r).1) ≡ pop_front q
        → elem f q ≡ false
    none_list [] h = refl
    none_list (g ∷ q) h = absurd (ground arith)

pub contains-identify_none :
    (r : LruPageReplacer) (f : ℕ)
    → IsValid r
    → (identify_frame_to_evict r).0 ≡ none
    → elem f (queue (identify_frame_to_evict r).1) ≡ elem f (queue r)
contains-identify_none r f v e = same_list (queue r) (identify_list r r.lru_list refl)
  where
    same_list :
        (q : List ℕ)
        → ((identify_frame_to_evict r).0, queue (identify_frame_to_evict r).1) ≡ pop_front q
        → elem f (queue (identify_frame_to_evict r).1) ≡ elem f q
    same_list [] h = ground arith
    same_list (g ∷ q) h = absurd (ground arith)

pub identify-some :
    (r : LruPageReplacer) (f v : ℕ)
    → IsValid r
    → (identify_frame_to_evict r).0 ≡ some v
    → (elem v (queue r) ≡ true)
      × (elem f (queue (identify_frame_to_evict r).1)
          ≡ (if v == f then false else elem f (queue r)))
identify-some r f v valid e = some_list (queue r) valid.distinct (identify_list r r.lru_list refl)
  where
    some_list :
        (q : List ℕ)
        → IsDistinct q
        → ((identify_frame_to_evict r).0, queue (identify_frame_to_evict r).1) ≡ pop_front q
        → (elem v q ≡ true)
          × (elem f (queue (identify_frame_to_evict r).1) ≡ (if v == f then false else elem f q))
    some_list [] d h = absurd (ground arith)
    some_list (g ∷ q) d h = ground arith

pub contains-mark_not_evictable :
    (f g : ℕ) (r : LruPageReplacer)
    → IsValid r
    → elem g (queue (mark_not_evictable f r)) ≡ (if f == g then false else elem g (queue r))
contains-mark_not_evictable f g r v =
    rw (queue-mark_not_evictable f r v) (elem-remove f g (queue r))

pub contains-mark_evictable :
    (f g : ℕ) (r : LruPageReplacer)
    → IsValid r
    → elem g (queue (mark_evictable f r)) ≡ (if f == g then true else elem g (queue r))
contains-mark_evictable f g r v =
    ground (arith, queue-mark_evictable f r v, elem-append g (queue r) (f ∷ []))

-- The LRU policy meets the interface of the buffer pool.
abbrev pub lru : PageReplacer
lru = record {
  State = LruPageReplacer;
  IsValid = IsValid;
  contains = λ r f. elem f (queue r);
  identify_frame_to_evict = identify_frame_to_evict;
  mark_not_evictable = mark_not_evictable;
  mark_evictable = mark_evictable;
  identify-IsValid = identify-IsValid;
  identify-none = identify-none;
  contains-identify_none = contains-identify_none;
  identify-some = λ r v i e. (identify-some r v v i e).0;
  contains-identify = λ r f v i e. (identify-some r f v i e).1;
  mark_not_evictable-IsValid = mark_not_evictable-IsValid;
  contains-mark_not_evictable = contains-mark_not_evictable;
  mark_evictable-IsValid = mark_evictable-IsValid;
  contains-mark_evictable = contains-mark_evictable;
}
