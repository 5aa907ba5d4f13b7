-- ===== src/CommitLog/Log/Reopening.antt =====
-- Closing a log and opening its directory again.
use distributed_systems_trai.Base.{
  ℕ, suc, ◌^◌, ◌≤◌, ◌<◌, ◌≡◌, refl, sym, ap, ◌∙◌, false, some, List, [], ◌∷◌, ◌++◌, map,
  append_assoc, append-nil, arith, All, ok,
}
use distributed_systems_trai.CommitLog.Segment.{Segment, Config}
use distributed_systems_trai.CommitLog.Segment.Reads.{IsHealthy}
use distributed_systems_trai.CommitLog.Segment.Reopen.{
  closed_segment, close-closed_segment, reopened, new_segment-reopened,
}
use distributed_systems_trai.CommitLog.Files
use distributed_systems_trai.CommitLog.Files.{File, Directory}
use distributed_systems_trai.CommitLog.Files.Names.{file_name, base_of_name, base_of_name-file_name}
use distributed_systems_trai.CommitLog.Log.{
  Log, listed, unset, segments, sort, insert_sorted, base_offsets, is_empty, created, found,
  open_segment, new_segment, setup_loop, setup, with_default, new_log,
}
use distributed_systems_trai.CommitLog.Log.Operations.{close_loop, close}
use distributed_systems_trai.CommitLog.Log.Invariant.{running, IsUsable}
use distributed_systems_trai.CommitLog.Log.Stored.{
  Stored, none_stored, stored, files_of, AllBelow, AllBelow-weaken, AllBelow-append, Stored-split,
  lookup-below, saved-files,
}

-- The two files of a closed segment.
abbrev pair_of : Segment → Directory
pair_of s = files_of (closed_segment s ∷ [])

abbrev pub closed_files : List Segment → Directory
closed_files ss = files_of (map closed_segment ss)

pair-AllBelow : (s : Segment) → AllBelow (suc s.base_offset) (pair_of s)
pair-AllBelow s = (omega arith, (omega arith, tt))

-- The loop of Close closes all segments and writes their files; the files before them and behind
-- them stay.
close_loop-closed :
    {room low : ℕ} {d : Directory} {ss : List Segment} (pre more : Directory)
    → All IsHealthy ss
    → Stored room low d ss
    → AllBelow low pre
    → close_loop ss (some (pre ++ (d ++ more)))
      ≡ ((map closed_segment ss, some (pre ++ (closed_files ss ++ more))), ok tt)
unfolding close_loop
close_loop-closed pre more healthy none_stored below = refl
close_loop-closed {ss = s ∷ ss} pre more healthy (stored {d = d} x y from fits rest) below =
    let before = AllBelow-weaken _ s.base_offset pre from below in
    let saves = saved-files (closed_segment s) pre (d ++ more) x y before in
    let again = close_loop-closed (pre ++ pair_of s) more healthy.1 rest (
      AllBelow-append (suc s.base_offset) pre (pair_of s)
        (AllBelow-weaken s.base_offset (suc s.base_offset) pre (omega arith) before)
        (pair-AllBelow s)) in
    let join = λ (l : Directory). append_assoc pre (pair_of s) l in
    ground (
      arith,
      close-closed_segment s healthy.0,
      saves,
      join (d ++ more),
      join (closed_files ss ++ more),
      again,
    )

-- The base offsets that setup reads, in the directory's order.
abbrev doubled : List Segment → List ℕ
doubled [] = []
doubled (s ∷ ss) = s.base_offset ∷ s.base_offset ∷ doubled ss

insert_sorted-least : (a : ℕ) (bs : List ℕ) → All (λ b. a ≤ b) bs → insert_sorted a bs ≡ a ∷ bs
unfolding insert_sorted
insert_sorted-least a [] h = refl
insert_sorted-least a (b ∷ bs) h = ground (arith, h.0)

doubled-above :
    {room low : ℕ} {d : Directory} {ss : List Segment} (bound : ℕ)
    → bound ≤ low
    → Stored room low d ss
    → All (λ b. bound ≤ b) (doubled ss)
doubled-above bound le none_stored = tt
doubled-above {ss = s ∷ ss} bound le (stored x y from fits rest) =
    (omega arith, (omega arith, doubled-above bound (omega arith) rest))

sort-doubled :
    {room low : ℕ} {d : Directory} {ss : List Segment}
    → Stored room low d ss
    → sort (doubled ss) ≡ doubled ss
unfolding sort
sort-doubled none_stored = refl
sort-doubled {ss = s ∷ ss} (stored x y from fits rest) =
    let above = doubled-above s.base_offset (omega arith) rest in
    ap (λ l. insert_sorted s.base_offset (insert_sorted s.base_offset l)) (sort-doubled rest)
    ∙ ap (insert_sorted s.base_offset) (insert_sorted-least s.base_offset (doubled ss) above)
    ∙ insert_sorted-least s.base_offset (s.base_offset ∷ doubled ss) (omega arith, above)

names_of_files :
    (ss : List Segment)
    → All IsHealthy ss
    → map (λ e. base_of_name (file_name e.0)) (closed_files ss) ≡ doubled ss
names_of_files [] h = refl
names_of_files (s ∷ ss) h =
    let small : s.base_offset < 2 ^ 64 = omega (arith, h.0.counted, h.0.bounded) in
    let rest = names_of_files ss h.1 in
    let store = base_of_name-file_name (Files.store_of s.base_offset) small in
    let index = base_of_name-file_name (Files.index_of s.base_offset) small in
    cc (rest, store, index)

base_offsets-closed_files :
    {room low : ℕ} {d : Directory} {ss : List Segment}
    → All IsHealthy ss
    → Stored room low d ss
    → base_offsets (closed_files ss) ≡ doubled ss
unfolding base_offsets
base_offsets-closed_files {ss = ss} healthy h = ap sort (names_of_files ss healthy) ∙ sort-doubled h

pub closed_files-AllBelow :
    (bound : ℕ) (ss : List Segment)
    → All (λ t. t.base_offset < bound) ss
    → AllBelow bound (closed_files ss)
closed_files-AllBelow bound [] h = tt
closed_files-AllBelow bound (s ∷ ss) h = (h.0, (h.0, closed_files-AllBelow bound ss h.1))

closed_files-snoc :
    (ss : List Segment) (s : Segment) → closed_files (ss ++ (s ∷ [])) ≡ closed_files ss ++ pair_of s
closed_files-snoc [] s = refl
closed_files-snoc (t ∷ ss) s = ap (λ l. pair_of t ++ l) (closed_files-snoc ss s)

-- What Close leaves of a log.
abbrev pub closed_log : Config → List Segment → Segment → Log
closed_log c older s = record {
  config = c;
  directory = some (closed_files (older ++ (s ∷ [])));
  older = map closed_segment older;
  active = listed (closed_segment s);
}

pub close-closed_log :
    (c : Config) {room low : ℕ} (d : Directory) (older : List Segment) (s : Segment)
    → All IsHealthy older
    → IsHealthy s
    → Stored room low d (older ++ (s ∷ []))
    → close (running c d older s) ≡ (closed_log c older s, ok tt)
unfolding close
close-closed_log c d older s healthy last h =
    let (d', x, y, same, init, below, _, _) = Stored-split older s h in
    let pair = (Files.store_of s.base_offset, x) ∷ (Files.index_of s.base_offset, y) ∷ [] in
    let loops = close_loop-closed [] pair healthy init tt in
    let saves =
      saved-files (closed_segment s) (closed_files older) [] x y
        (closed_files-AllBelow s.base_offset older below) in
    rw same (ground (arith, loops, close-closed_segment s last, saves, closed_files-snoc older s))

open_segment-closed :
    (c : Config) (pre more : Directory) (s : Segment)
    → IsHealthy s
    → s.index.size ≤ c.max_index_bytes
    → IsUsable c
    → AllBelow s.base_offset pre
    → open_segment (pre ++ (pair_of s ++ more)) s.base_offset c
      ≡ (pre ++ (pair_of s ++ more), ok (reopened s c))
unfolding open_segment created found
open_segment-closed c pre more s h fits u below =
    let store =
      lookup-below (Files.store_of s.base_offset) pre (pair_of s ++ more) below ∙ at_store in
    let index =
      lookup-below (Files.index_of s.base_offset) pre (pair_of s ++ more) below ∙ at_index in
    let opens = new_segment-reopened s c h fits u.positive u.small in
    ground (arith, store, index, opens)
  where
    at_store :
        Files.lookup (Files.store_of s.base_offset) (pair_of s ++ more)
        ≡ some (closed_segment s).store.contents
    at_store = unfold Files.lookup in unfold Files.same_file in ground arith

    at_index :
        Files.lookup (Files.index_of s.base_offset) (pair_of s ++ more)
        ≡ some (closed_segment s).index.mmap
    at_index = unfold Files.lookup in unfold Files.same_file in ground arith

module _ (c : Config) (u : IsUsable c) where
  abbrev pub opened_again : List Segment → List Segment
  opened_again = map (λ s. reopened s c)

  new_segment-closed :
      (l : Log) (pre more : Directory) (s : Segment)
      → l.config ≡ c
      → l.directory ≡ some (pre ++ (pair_of s ++ more))
      → IsHealthy s
      → s.index.size ≤ c.max_index_bytes
      → AllBelow s.base_offset pre
      → new_segment l s.base_offset
        ≡ (running c (pre ++ (pair_of s ++ more)) (segments l) (reopened s c), ok tt)
  unfolding new_segment
  new_segment-closed l pre more s same at h fits below =
      ground (arith, same, at, open_segment-closed c pre more s h fits u below)

  setup_loop-pair :
      (l l' : Log) (off : ℕ) (offs : List ℕ)
      → new_segment l off ≡ (l', ok tt)
      → setup_loop l (off ∷ off ∷ offs) ≡ setup_loop l' offs
  unfolding setup_loop
  setup_loop-pair l l' off offs h = ground (arith, h)

  setup_loop-reopened :
      {low : ℕ} {d : Directory} (l : Log) (pre : Directory) (older : List Segment) (s : Segment)
      → l.config ≡ c
      → l.directory ≡ some (pre ++ closed_files (older ++ (s ∷ [])))
      → All IsHealthy (older ++ (s ∷ []))
      → Stored c.max_index_bytes low d (older ++ (s ∷ []))
      → AllBelow low pre
      → setup_loop l (doubled (older ++ (s ∷ []))) ≡ (
        running c
            (pre ++ closed_files (older ++ (s ∷ [])))
            (segments l ++ opened_again older)
            (reopened s c),
        ok tt,
      )
  setup_loop-reopened l pre [] s same at healthy (stored x y from fits none_stored) below =
      let before = AllBelow-weaken _ s.base_offset pre from below in
      let opens = new_segment-closed l pre [] s same at healthy.0 fits before in
      setup_loop-pair l _ s.base_offset [] opens
      ∙ nothing_left _
      ∙ ap (λ ss. (running c (pre ++ pair_of s) ss (reopened s c), ok tt))
          (sym (append-nil (segments l)))
    where
      nothing_left : (l : Log) → setup_loop l [] ≡ (l, ok tt)
      nothing_left l = unfold setup_loop in refl
  setup_loop-reopened l pre (t ∷ older) s same at healthy (stored x y from fits rest) below =
      let before = AllBelow-weaken _ t.base_offset pre from below in
      let more = closed_files (older ++ (s ∷ [])) in
      let opens = new_segment-closed l pre more t same at healthy.0 fits before in
      let joined = append_assoc pre (pair_of t) more in
      let under =
        AllBelow-append (suc t.base_offset) pre (pair_of t)
          (AllBelow-weaken t.base_offset (suc t.base_offset) pre (omega arith) before)
          (pair-AllBelow t) in
      let l' = running c (pre ++ (pair_of t ++ more)) (segments l) (reopened t c) in
      setup_loop-pair l l' t.base_offset (doubled (older ++ (s ∷ []))) opens
      ∙ setup_loop-reopened l' (pre ++ pair_of t) older s refl (ap some (sym joined)) healthy.1 rest
          under
      ∙ ap (λ d. (running c d (segments l' ++ opened_again older) (reopened s c), ok tt)) joined
      ∙ ap (λ ss. (running c (pre ++ (pair_of t ++ more)) ss (reopened s c), ok tt))
          (append_assoc (segments l) (reopened t c ∷ []) (opened_again older))

  is_empty-snoc : (ss : List Segment) (s : Segment) → is_empty (ss ++ (s ∷ [])) ≡ false
  unfolding is_empty
  is_empty-snoc [] s = refl
  is_empty-snoc (t ∷ ss) s = refl

  setup-reopened :
      {low : ℕ} {d : Directory} (older : List Segment) (s : Segment)
      → All IsHealthy (older ++ (s ∷ []))
      → Stored c.max_index_bytes low d (older ++ (s ∷ []))
      → setup (record {
        config = c;
        directory = some (closed_files (older ++ (s ∷ [])));
        older = [];
        active = unset;
      })
        ≡ (running c (closed_files (older ++ (s ∷ []))) (opened_again older) (reopened s c), ok tt)
  unfolding setup
  setup-reopened older s healthy h =
      let l : Log = record {
        config = c;
        directory = some (closed_files (older ++ (s ∷ [])));
        older = [];
        active = unset;
      } in
      let loops = setup_loop-reopened l [] older s refl refl healthy h tt in
      ground (
        arith,
        base_offsets-closed_files healthy h,
        loops,
        is_empty-snoc (opened_again older) (reopened s c),
      )

  with_default-positive : (n : ℕ) → 0 < n → with_default n ≡ n
  unfolding with_default
  with_default-positive n h = ground arith

  -- NewLog over the directory that Close left.
  pub new_log-reopened :
      {low : ℕ} {d : Directory} (older : List Segment) (s : Segment)
      → All IsHealthy (older ++ (s ∷ []))
      → Stored c.max_index_bytes low d (older ++ (s ∷ []))
      → 0 < c.max_store_bytes
      → new_log (some (closed_files (older ++ (s ∷ [])))) c
        ≡ (running c (closed_files (older ++ (s ∷ []))) (opened_again older) (reopened s c), ok tt)
  unfolding new_log
  new_log-reopened older s healthy h positive =
      rw
        (
          with_default-positive c.max_index_bytes u.positive,
          with_default-positive c.max_store_bytes positive,
        )
        (setup-reopened older s healthy h)
