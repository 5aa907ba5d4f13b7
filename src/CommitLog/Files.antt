-- ===== src/CommitLog/Files.antt =====
-- The directory of a log, and the names of its files: `fmt.Sprintf("%d.store", baseOffset)` in
-- internal/log/segment.go, and their reading in `setup` of internal/log/log.go.
pub mod Names
use distributed_systems_trai.Base.{
  ℕ, ◌-◌, ◌≡◌, refl, Bool, true, false, ◌&&◌, Option, none, some, List, [], ◌∷◌, arith, ◌==◌,
  if◌then◌else◌,
}

pub data Ext : Type 0 where
  store index : Ext

-- A file of a segment, by its base offset.
pub record File : Type 0 where
  pub base : ℕ
  pub ext : Ext

-- The two files of the segment at a base offset.
abbrev pub store_of : ℕ → File
store_of off = record { base = off; ext = store }

abbrev pub index_of : ℕ → File
index_of off = record { base = off; ext = index }

same_ext : Ext → Ext → Bool
same_ext store store = true
same_ext index index = true
same_ext _ _ = false

unfoldable pub same_file : File → File → Bool
unfolding same_ext
same_file f g = f.base == g.base && same_ext f.ext g.ext

-- The files that a directory has, with their bytes.
abbrev pub Directory : Type 0
Directory = List (File × List ℕ)

unfoldable pub lookup : File → Directory → Option (List ℕ)
unfolding same_file
lookup f [] = none
lookup f ((g, bytes) ∷ files) = if same_file g f then some bytes else lookup f files

-- Writes a file, which is made if there is none of the name.
unfoldable pub put : File → List ℕ → Directory → Directory
unfolding same_file
put f bytes [] = (f, bytes) ∷ []
put f bytes ((g, old) ∷ files) =
    if same_file g f then (f, bytes) ∷ files else (g, old) ∷ put f bytes files

-- os.Remove
unfoldable pub delete : File → Directory → Directory
unfolding same_file
delete f [] = []
delete f ((g, bytes) ∷ files) =
    let rest = delete f files in if same_file g f then rest else (g, bytes) ∷ rest

pub lookup-nil : (f : File) → lookup f [] ≡ none
unfolding lookup
lookup-nil f = refl

pub lookup-put :
    (f g : File) (bytes : List ℕ) (d : Directory)
    → lookup g (put f bytes d) ≡ (if same_file f g then some bytes else lookup g d)
unfolding lookup put
lookup-put f g bytes [] = ground arith
lookup-put f g bytes ((h, old) ∷ d) = ground (arith, lookup-put f g bytes d)

pub lookup-delete :
    (f g : File) (d : Directory)
    → lookup g (delete f d) ≡ (if same_file f g then none else lookup g d)
unfolding lookup delete
lookup-delete f g [] = ground arith
lookup-delete f g ((h, old) ∷ d) = ground (arith, lookup-delete f g d)
