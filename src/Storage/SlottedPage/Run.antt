-- ===== src/Storage/SlottedPage/Run.antt =====
-- Sequences of calls on one page (src/storage/slotted_page.cpp).
use lettydb.Common.{ℕ, sym, subst, List, [], ◌∷◌, Bool, true, false, Option, none, some}
use lettydb.Storage.Bytes.{Buffer}
use lettydb.Storage.SlottedPage.{init, insert_tuple, delete_tuple, compact}
use lettydb.Storage.SlottedPage.Layout.{IsValid}
use lettydb.Storage.SlottedPage.Contract.{Insertion, insert_tuple-Insertion, needed_space}
use lettydb.Storage.SlottedPage.Delete.{Deletion, delete_tuple-Deletion}
use lettydb.Storage.SlottedPage.Compact.{init-Fresh, Compaction, compact-Compaction}

-- A call that can change a page.
pub data Command : Type 0 where
  insert : List ℕ → Command
  delete : ℕ → Command
  compaction : Command

unfoldable pub run : Command → Buffer → Buffer
run (insert row) b = (insert_tuple row b).1
run (delete i) b = (delete_tuple i b).1
run compaction b = (compact b).1

unfoldable pub run_all : List Command → Buffer → Buffer
run_all [] b = b
run_all (c ∷ cs) b = run_all cs (run c b)

Insertion-IsValid :
    (needed : ℕ) (row : List ℕ) (b : Buffer) (r : Option ℕ × Buffer)
    → IsValid b
    → Insertion needed row b r
    → IsValid r.1
unfolding Insertion
Insertion-IsValid needed row b (none, c) v o = subst IsValid (sym o.1) v
Insertion-IsValid needed row b (some t, c) v o = o.valid

Deletion-IsValid :
    (i : ℕ) (b : Buffer) (r : Bool × Buffer) → IsValid b → Deletion i b r → IsValid r.1
unfolding Deletion
Deletion-IsValid i b (false, c) v o = subst IsValid (sym o.1) v
Deletion-IsValid i b (true, c) v o = o.1.valid

Compaction-IsValid : (b : Buffer) (r : Bool × Buffer) → IsValid b → Compaction b r → IsValid r.1
unfolding Compaction
Compaction-IsValid b (false, c) v o = subst IsValid (sym o.1) v
Compaction-IsValid b (true, c) v o = o.1.packed.valid

pub run-IsValid : (c : Command) (b : Buffer) → IsValid b → IsValid (run c b)
unfolding run
run-IsValid (insert row) b v =
    Insertion-IsValid (needed_space row b) row b (insert_tuple row b) v
      (insert_tuple-Insertion row b v)
run-IsValid (delete i) b v = Deletion-IsValid i b (delete_tuple i b) v (delete_tuple-Deletion i b v)
run-IsValid compaction b v = Compaction-IsValid b (compact b) v (compact-Compaction b v)

pub run_all-IsValid : (cs : List Command) (b : Buffer) → IsValid b → IsValid (run_all cs b)
unfolding run_all
run_all-IsValid [] b v = v
run_all-IsValid (c ∷ cs) b v = run_all-IsValid cs (run c b) (run-IsValid c b v)

-- Whatever sequence of insertions, deletions and compactions is applied to a freshly initialised
-- page, the page is well formed: the directory ends below the free-space pointer, that is within
-- the page, every row lies between it and the end of the page, no two rows share a byte, and the
-- rows fill at most what lies behind the pointer.
pub page-IsValid : (cs : List Command) (b : Buffer) → IsValid (run_all cs (init b))
page-IsValid cs b = run_all-IsValid cs (init b) (init-Fresh b).0
