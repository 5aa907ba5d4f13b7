-- ===== src/CommitLog/Log/Stored.antt =====
-- The directory of a log: the two files of every segment, in the order of the base offsets.
use distributed_systems_trai.Base.{
  ℕ, suc, ◌≤◌, ◌<◌, ◌≡◌, refl, sym, ap, ◌∙◌, subst, none, some, List, [], ◌∷◌, ◌++◌, append-nil,
  arith, All,
}
use distributed_systems_trai.CommitLog.Segment.{Segment}
use distributed_systems_trai.CommitLog.Files
use distributed_systems_trai.CommitLog.Files.{File, Directory}
use distributed_systems_trai.CommitLog.Log.Operations.{saved}
use distributed_systems_trai.CommitLog.Log.Invariant.{with_files}

-- The directory has the files of the segments and no other. Their base offsets ascend from `low` on,
-- and their indexes fit the limit `room`.
pub data Stored (room : ℕ) : ℕ → Directory → List Segment → Type 0 where
  none_stored : {low : ℕ} → Stored room low [] []
  stored :
      {low : ℕ} {d : Directory} {s : Segment} {ss : List Segment} (x y : List ℕ)
      → low ≤ s.base_offset
      → s.index.size ≤ room
      → Stored room (suc s.base_offset) d ss
      → Stored room low
          ((Files.store_of s.base_offset, x) ∷ (Files.index_of s.base_offset, y) ∷ d)
          (s ∷ ss)

-- The files of closed segments.
abbrev pub files_of : List Segment → Directory
files_of [] = []
files_of (s ∷ ss) =
    (Files.store_of s.base_offset, s.store.contents)
    ∷ (Files.index_of s.base_offset, s.index.mmap)
    ∷ files_of ss

-- All files are of bases below the bound.
abbrev pub AllBelow : ℕ → Directory → Type 0
AllBelow bound = All (λ e. e.0.base < bound)

pub AllBelow-weaken : (low high : ℕ) (d : Directory) → low ≤ high → AllBelow low d → AllBelow high d
AllBelow-weaken low high [] le h = tt
AllBelow-weaken low high (e ∷ d) le h = (omega (arith, h.0), AllBelow-weaken low high d le h.1)

pub AllBelow-append :
    (bound : ℕ) (d d' : Directory) → AllBelow bound d → AllBelow bound d' → AllBelow bound (d ++ d')
AllBelow-append bound [] d' h g = g
AllBelow-append bound (e ∷ d) d' h g = (h.0, AllBelow-append bound d d' h.1 g)

module _ (f : File) where
  pub put-below :
      (x : List ℕ) (pre d : Directory)
      → AllBelow f.base pre
      → Files.put f x (pre ++ d) ≡ pre ++ Files.put f x d
  unfolding Files.put Files.same_file
  put-below x [] d h = refl
  put-below x ((g, old) ∷ pre) d h = ground (arith, h.0, put-below x pre d h.1)

  pub lookup-below :
      (pre d : Directory) → AllBelow f.base pre → Files.lookup f (pre ++ d) ≡ Files.lookup f d
  unfolding Files.lookup Files.same_file
  lookup-below [] d h = refl
  lookup-below ((g, old) ∷ pre) d h = ground (arith, h.0, lookup-below pre d h.1)

  pub lookup_below : (d : Directory) → AllBelow f.base d → Files.lookup f d ≡ none
  unfolding Files.lookup Files.same_file
  lookup_below [] h = refl
  lookup_below ((g, old) ∷ d) h = ground (arith, h.0, lookup_below d h.1)

-- Saving a closed segment replaces its two files.
pub saved-files :
    (s : Segment) (pre d : Directory) (x y : List ℕ)
    → AllBelow s.base_offset pre
    → saved s
        (some (pre ++ ((Files.store_of s.base_offset, x) ∷ (Files.index_of s.base_offset, y) ∷ d)))
      ≡ some (
          pre
          ++ ((Files.store_of s.base_offset, s.store.contents)
              ∷ (Files.index_of s.base_offset, s.index.mmap)
              ∷ d))
unfolding saved
saved-files s pre d x y h =
    let store = Files.store_of s.base_offset in
    let index = Files.index_of s.base_offset in
    ap some (
      ap (Files.put index s.index.mmap) (
        put-below store s.store.contents pre ((store, x) ∷ (index, y) ∷ d) h
        ∙ ap (λ l. pre ++ l) at_store)
      ∙ put-below index s.index.mmap pre ((store, s.store.contents) ∷ (index, y) ∷ d) h
      ∙ ap (λ l. pre ++ l) at_index)
  where
    at_store :
        Files.put
          (Files.store_of s.base_offset)
          s.store.contents
          ((Files.store_of s.base_offset, x) ∷ (Files.index_of s.base_offset, y) ∷ d)
        ≡ (Files.store_of s.base_offset, s.store.contents) ∷ (Files.index_of s.base_offset, y) ∷ d
    at_store = unfold Files.put in unfold Files.same_file in ground arith

    at_index :
        Files.put
          (Files.index_of s.base_offset)
          s.index.mmap
          ((Files.store_of s.base_offset, s.store.contents) ∷ (Files.index_of s.base_offset, y) ∷ d)
        ≡ (Files.store_of s.base_offset, s.store.contents)
          ∷ (Files.index_of s.base_offset, s.index.mmap)
          ∷ d
    at_index = unfold Files.put in unfold Files.same_file in ground arith

-- The files of segments are below what is above their bases.
pub Stored-AllBelow :
    {room low : ℕ} {d : Directory} {ss : List Segment} (bound : ℕ)
    → Stored room low d ss
    → All (λ s. s.base_offset < bound) ss
    → AllBelow bound d
Stored-AllBelow bound none_stored h = tt
Stored-AllBelow bound (stored x y from fits rest) h = (h.0, (h.0, Stored-AllBelow bound rest h.1))

Stored-snoc :
    {room low : ℕ} {d : Directory} {ss : List Segment} (s : Segment) (x y : List ℕ)
    → Stored room low d ss
    → All (λ t. t.base_offset < s.base_offset) ss
    → low ≤ s.base_offset
    → s.index.size ≤ room
    → Stored room low
        (d ++ ((Files.store_of s.base_offset, x) ∷ (Files.index_of s.base_offset, y) ∷ []))
        (ss ++ (s ∷ []))
Stored-snoc s x y none_stored below from fits = stored x y from fits none_stored
Stored-snoc s x y (stored x' y' from' fits' rest) below from fits =
    stored x' y' from' fits' (Stored-snoc s x y rest below.1 below.0 fits)

with_files-below :
    (off : ℕ) (d : Directory)
    → AllBelow off d
    → with_files off d ≡ d ++ ((Files.store_of off, []) ∷ (Files.index_of off, []) ∷ [])
with_files-below off d h =
    ap (λ l. Files.put (Files.index_of off) [] (Files.put (Files.store_of off) [] l))
      (sym (append-nil d))
    ∙ ap (Files.put (Files.index_of off) []) (put-below (Files.store_of off) [] d [] h)
    ∙ put-below (Files.index_of off) [] d (Files.put (Files.store_of off) [] []) h
    ∙ ap (λ l. d ++ l) both
  where
    both :
        Files.put (Files.index_of off) [] (Files.put (Files.store_of off) [] [])
        ≡ (Files.store_of off, []) ∷ (Files.index_of off, []) ∷ []
    both = unfold Files.put in unfold Files.same_file in ground arith

-- Opening a segment above all others adds its two files at the end.
pub Stored-with_files :
    {room low : ℕ} {d : Directory} {ss : List Segment} (s : Segment)
    → Stored room low d ss
    → All (λ t. t.base_offset < s.base_offset) ss
    → low ≤ s.base_offset
    → s.index.size ≤ room
    → Stored room low (with_files s.base_offset d) (ss ++ (s ∷ []))
Stored-with_files {room = room} {low = low} {d = d} {ss = ss} s h below from fits =
    rw (with_files-below s.base_offset d (Stored-AllBelow s.base_offset h below))
      (Stored-snoc s [] [] h below from fits)

-- The files of the last segment stand at the end.
pub Stored-split :
    {room low : ℕ} {d : Directory} (older : List Segment) (s : Segment)
    → Stored room low d (older ++ (s ∷ []))
    → (d' : Directory) × (x : List ℕ) × (y : List ℕ) × (d
        ≡ d' ++ ((Files.store_of s.base_offset, x) ∷ (Files.index_of s.base_offset, y) ∷ []))
      × Stored room low d' older
      × All (λ t. t.base_offset < s.base_offset) older
      × (low ≤ s.base_offset)
      × (s.index.size ≤ room)
Stored-split [] s (stored x y from fits none_stored) = ([], x, y, refl, none_stored, tt, from, fits)
Stored-split (t ∷ older) s (stored x y from fits rest) =
    let (d', x', y', same, init, below, above, last) = Stored-split older s rest in
    (
      (Files.store_of t.base_offset, x) ∷ (Files.index_of t.base_offset, y) ∷ d',
      x',
      y',
      ap (λ l. (Files.store_of t.base_offset, x) ∷ (Files.index_of t.base_offset, y) ∷ l) same,
      stored x y from fits init,
      (omega arith, below),
      omega arith,
      last,
    )

-- The last segment may grow within the limit.
pub Stored-grown :
    {room low : ℕ} {d : Directory} (older : List Segment) (s t : Segment)
    → Stored room low d (older ++ (s ∷ []))
    → t.base_offset ≡ s.base_offset
    → t.index.size ≤ room
    → Stored room low d (older ++ (t ∷ []))
Stored-grown {room = room} {low = low} [] s t (stored x y from fits none_stored) same grown =
    subst (λ b. Stored room low ((Files.store_of b, x) ∷ (Files.index_of b, y) ∷ []) (t ∷ [])) same
      (stored x y (rw same from) grown none_stored)
Stored-grown (u ∷ older) s t (stored x y from fits rest) same grown =
    stored x y from fits (Stored-grown older s t rest same grown)

pub All-snoc {ℓ κ} :
    {A : Type ℓ} (P : A → Type κ) (xs : List A) (a : A) → All P xs → P a → All P (xs ++ (a ∷ []))
All-snoc P [] a h g = (g, tt)
All-snoc P (x ∷ xs) a h g = (h.0, All-snoc P xs a h.1 g)

-- Opening the next segment behind the last one.
pub Stored-next :
    {room low : ℕ} {d : Directory} (older : List Segment) (s t : Segment)
    → Stored room low d (older ++ (s ∷ []))
    → s.base_offset < t.base_offset
    → t.index.size ≤ room
    → Stored room low (with_files t.base_offset d) ((older ++ (s ∷ [])) ++ (t ∷ []))
Stored-next older s t h above fits =
    let (d', x, y, same, init, below, from, last) = Stored-split older s h in
    Stored-with_files t h
      (All-snoc (λ u. u.base_offset < t.base_offset) older s (weaken older below) above)
      (omega arith) fits
  where
    weaken :
        (us : List Segment)
        → All (λ u. u.base_offset < s.base_offset) us
        → All (λ u. u.base_offset < t.base_offset) us
    weaken [] g = tt
    weaken (u ∷ us) g = (omega (arith, g.0), weaken us g.1)
