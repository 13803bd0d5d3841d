-- ===== src/Buffer/Pool/Install.antt =====
-- An acquired frame is given a page, or goes back to the free list: the second halves of
-- `fetch_page`, `new_page` and `new_or_fetch_page` of src/buffer/buffer_pool_manager.cpp.
use lettydb.Common.{
  ℕ, ◌≡◌, ◌≢◌, ◌⊎◌, [], ◌∷◌, ◌++◌, Bool, false, none, some, ℤ, ℤ_discrete, ite, elem, elem-append,
  append-IsDistinct, arith, Option-cases, inl, inr,
}
use lettydb.Common.Maps
use lettydb.Buffer.Replacer.{PageReplacer}
use lettydb.Buffer.Pool.{lookup, reset_frame, install}
use lettydb.Buffer.Pool.Invariant.{IsValid, content, pins}
use lettydb.Buffer.Pool.Acquire.{St, held}
use lettydb.Storage.Config.{PageId, invalid_page_id}
use lettydb.Storage.Disk.{DiskManager}

-- `b` at one page, `f` elsewhere.
abbrev pub at : {B : Type 0} → PageId → B → (PageId → B) → PageId → B
at p b f q = ite (ℤ_discrete p q) b (f q)

module _ {A : Type 0} (zeros : A) (rep : PageReplacer) (dm : DiskManager A) where
  module _ (t : St zeros rep dm) (f : ℕ) (v : IsValid zeros rep dm (held zeros rep dm f t))
      (d : DiskManager.State dm) (same : (q : ℤ) → dm.stored d q ≡ dm.stored t.disk q) where
    abbrev on_disk : St zeros rep dm
    on_disk = reset_frame zeros rep dm f (record t { disk = d })

    only_one : elem f t.free_list ≡ false
    only_one = v.free_once.0

    module _ (p : PageId) (dirty : Bool) (a : A) (unmapped : lookup p t ≡ none) where
      abbrev pub installed : St zeros rep dm
      installed = install zeros rep dm p f dirty a on_disk

      pub lookup-installed :
          (q : ℤ) → lookup q installed ≡ ite (ℤ_discrete p q) (some f) (lookup q t)
      unfolding install
      lookup-installed q = Maps.find-insert ℤ_discrete p q f t.page_table

      not_mine : (q : ℤ) (g : ℕ) → lookup q t ≡ some g → f ≢ g
      not_mine q g h e = v.free_unmapped f q (ground arith) (rw e h)

      installed_cases :
          (q : ℤ) (g : ℕ)
          → lookup q installed ≡ some g
          → ((p ≡ q) × (f ≡ g)) ⊎ ((p ≢ q) × (f ≢ g) × (lookup q t ≡ some g))
      installed_cases q g h = elim (ℤ_discrete p q) [
        | yes e ↦ inl (e, ground (arith, lookup-installed q))
        | no n ↦
            let old : lookup q t ≡ some g = ground (arith, lookup-installed q) in
            inr (n, not_mine q g old, old)
      ]

      pub installed-IsValid : IsValid zeros rep dm installed
      unfolding install
      installed-IsValid = record {
        unique = Maps.insert-IsUnique ℤ_discrete p f t.page_table v.unique;
        policy = v.policy;
        mapped = λ q g h. ground (arith, installed_cases q g h, v.mapped q g, v.free_in_range f);
        evictable = λ q g h. ground (
          arith,
          installed_cases q g h,
          v.evictable q g,
          v.tracked f,
          not_mine invalid_page_id f,
        );
        tracked = λ g h. ground (
          arith,
          v.tracked g h,
          not_mine invalid_page_id f,
          not_mine (t.pages g).page_id g,
          lookup-installed (t.pages g).page_id,
          unmapped,
        );
        free_in_range = λ g h. ground (arith, v.free_in_range g);
        free_unmapped =
            λ g q h e. ground (arith, installed_cases q g e, v.free_unmapped g q, only_one);
        free_blank = λ g h. ground (arith, v.free_blank g, only_one);
        free_once = v.free_once.1;
        accounted = λ g h. ground (
          arith,
          v.accounted g h,
          lookup-installed (t.pages g).page_id,
          lookup-installed p,
          unmapped,
        );
        clean = λ q g h n0 k. ground (arith, installed_cases q g h, v.clean q g, same q);
      }

      pub content-installed :
          (q : ℤ)
          → content zeros rep dm installed q
            ≡ at p a (content zeros rep dm (held zeros rep dm f t)) q
      unfolding content install
      content-installed q = elim (Option-cases (lookup q t)) [
        | inl e ↦ ground (arith, lookup-installed q, same q)
        | inr (g, e) ↦ ground (arith, lookup-installed q, not_mine q g e)
      ]

      pub pins-installed :
          (q : ℤ)
          → pins zeros rep dm installed q ≡ at p 1 (pins zeros rep dm (held zeros rep dm f t)) q
      unfolding pins install
      pins-installed q = elim (Option-cases (lookup q t)) [
        | inl e ↦ ground (arith, lookup-installed q)
        | inr (g, e) ↦ ground (arith, lookup-installed q, not_mine q g e)
      ]

    -- The frame goes to the end of the free list, blank.
    abbrev pub returned : St zeros rep dm
    returned = record (reset_frame zeros rep dm f on_disk) { free_list = t.free_list ++ f ∷ [] }

    pub returned-IsValid : IsValid zeros rep dm returned
    returned-IsValid = record {
      unique = v.unique;
      policy = v.policy;
      mapped = λ q g h. ground (arith, v.mapped q g h);
      evictable = λ q g h. ground (arith, v.evictable q g h);
      tracked = λ g h. ground (arith, v.tracked g h);
      free_in_range = λ g h. ground (arith, elem-append g t.free_list (f ∷ []), v.free_in_range g);
      free_unmapped =
          λ g q h. v.free_unmapped g q (ground (arith, elem-append g t.free_list (f ∷ [])));
      free_blank = λ g h. ground (arith, elem-append g t.free_list (f ∷ []), v.free_blank g);
      free_once = append-IsDistinct f t.free_list v.free_once.1 only_one;
      accounted = λ g h. ground (arith, elem-append g t.free_list (f ∷ []), v.accounted g h);
      clean = λ q g h n0 k. ground (arith, v.clean q g h, same q);
    }

    pub content-returned :
        (q : ℤ) → content zeros rep dm returned q ≡ content zeros rep dm (held zeros rep dm f t) q
    unfolding content
    content-returned q = ground (arith, same q)
