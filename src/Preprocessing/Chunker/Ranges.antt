-- ===== src/Preprocessing/Chunker/Ranges.antt =====
-- Ranges of transaction ids: lookups in a directory that grows, and where each id is.
use pocket_data_mining.Base.{
  ℕ, ◌≤◌, ◌<◌, ◌≡◌, refl, ◌∙◌, some, List, [], ◌∷◌, arith, All, ◌⊎◌, inl, inr, lt→ltb,
}
use pocket_data_mining.Preprocessing.Chunker.{PageDirectory, PageDirectoryEntry, add, find_page}

-- The directory has a page whose range holds the transaction.
abbrev pub Finds : ℕ → PageDirectory → Type 0
Finds tid dir =
    (e : PageDirectoryEntry) × (find_page tid dir ≡ some e)
    × (e.start_tid ≤ tid)
    × (tid ≤ e.end_tid)

abbrev pub StartsBelow : ℕ → PageDirectory → Type 0
StartsBelow bound dir = All (λ e. e.start_tid < bound) dir

pub add_first :
    (e : PageDirectoryEntry) (dir : PageDirectory)
    → StartsBelow e.start_tid dir
    → add e dir ≡ e ∷ dir
unfolding add
add_first e [] h = refl
add_first e (d ∷ ds) (h, hs) = rw (lt→ltb d.start_tid e.start_tid h, add) refl

pub find_older :
    (tid : ℕ) (e : PageDirectoryEntry) (dir : PageDirectory)
    → tid < e.start_tid
    → find_page tid (e ∷ dir) ≡ find_page tid dir
unfolding find_page
find_older tid e dir h = ground arith

pub find_newest :
    (tid : ℕ) (e : PageDirectoryEntry) (dir : PageDirectory)
    → e.start_tid ≤ tid
    → tid ≤ e.end_tid
    → find_page tid (e ∷ dir) ≡ some e
unfolding find_page
find_newest tid e dir h k = ground arith

pub StartsBelow-mono :
    (a b : ℕ) (dir : PageDirectory) → a ≤ b → StartsBelow a dir → StartsBelow b dir
StartsBelow-mono a b [] le h = tt
StartsBelow-mono a b (e ∷ es) le (h, hs) = (omega arith, StartsBelow-mono a b es le hs)

-- Where a transaction is: in a page of the directory, or in the page that is being filled.
abbrev pub Placed : PageDirectory → ℕ → ℕ → ℕ → Type 0
Placed dir start last tid = (Finds tid dir × (tid < start)) ⊎ ((start ≤ tid) × (tid ≤ last))

-- `start` and `last` are the range of the page that is being filled.
pub record IsFilling (dir : PageDirectory) (start last next : ℕ) (added : List ℕ) : Type 0 where
  pub starts : StartsBelow start dir
  pub before_next : last < next
  pub in_order : start < next
  pub placed : All (λ tid. Placed dir start last tid) added

-- All pages are written.
pub record IsFlushed (dir : PageDirectory) (next : ℕ) (added : List ℕ) : Type 0 where
  pub starts : StartsBelow next dir
  pub found : All (λ tid. Finds tid dir × (tid < next)) added

pub Placed-flush :
    (dir : PageDirectory) (e : PageDirectoryEntry) (next tid : ℕ)
    → e.end_tid < next
    → e.start_tid ≤ next
    → Placed dir e.start_tid e.end_tid tid
    → Finds tid (e ∷ dir) × (tid < next)
Placed-flush dir e next tid h k (inl ((f, q, a, b), below)) =
    ((f, find_older tid e dir below ∙ q, a, b), omega arith)
Placed-flush dir e next tid h k (inr (a, b)) = ((e, find_newest tid e dir a b, a, b), omega arith)

pub All-flush :
    (dir : PageDirectory) (e : PageDirectoryEntry) (next : ℕ) (added : List ℕ)
    → e.end_tid < next
    → e.start_tid ≤ next
    → All (λ tid. Placed dir e.start_tid e.end_tid tid) added
    → All (λ tid. Finds tid (e ∷ dir) × (tid < next)) added
All-flush dir e next [] h k p = tt
All-flush dir e next (tid ∷ added) h k (p, ps) =
    (Placed-flush dir e next tid h k p, All-flush dir e next added h k ps)

pub All-first :
    (dir : PageDirectory) (next tid : ℕ) (added : List ℕ)
    → next ≤ tid
    → All (λ t. Finds t dir × (t < next)) added
    → All (λ t. Placed dir tid tid t) added
All-first dir next tid [] h p = tt
All-first dir next tid (t ∷ added) h ((f, b), ps) =
    (inl (f, omega arith), All-first dir next tid added h ps)

pub All-more :
    (dir : PageDirectory) (start last tid : ℕ) (added : List ℕ)
    → last ≤ tid
    → All (λ t. Placed dir start last t) added
    → All (λ t. Placed dir start tid t) added
All-more dir start last tid [] h p = tt
All-more dir start last tid (t ∷ added) h (inl f, ps) =
    (inl f, All-more dir start last tid added h ps)
All-more dir start last tid (t ∷ added) h (inr (a, b), ps) =
    (inr (a, omega arith), All-more dir start last tid added h ps)
