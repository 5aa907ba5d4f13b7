-- ===== src/CommitLog/Store/Writer.antt =====
-- The buffered writer of a store: what was written is the file's bytes and those still buffered.
use distributed_systems_trai.Base.{
  ℕ, ◌-◌, ◌≡◌, refl, sym, ap, ◌∙◌, inl, inr, List, [], ◌∷◌, ◌++◌, true, none, leb, arith, length,
  take, drop, take-append-drop, append_assoc, append-nil, Bool-cases, Result, ok,
}
use distributed_systems_trai.CommitLog.Store.{
  Store, buf_size, write_file, flush_pending, flush, buf_rest, buf_spill, buf_write,
}

-- All bytes that were appended.
abbrev pub bytes : Store → List ℕ
bytes s = s.contents ++ s.pending

-- The file is open, no write has failed, and `size` counts all bytes.
pub record IsHealthy (s : Store) : Type 0 where
  pub is_open : s.is_open ≡ true
  pub unfailed : s.failed ≡ none
  pub sized : s.size ≡ length (bytes s)

-- `t` is `s` with the bytes `p` appended, `size` not yet counted up.
pub record Wrote (s : Store) (p : List ℕ) (t : Store) : Type 0 where
  pub is_open : t.is_open ≡ true
  pub unfailed : t.failed ≡ none
  pub wrote : bytes t ≡ bytes s ++ p
  pub same_size : t.size ≡ s.size

abbrev pub Writes : Store → List ℕ → Store × Result (Unit {0}) → Type 0
Writes s p r = (t : Store) × (r ≡ (t, ok tt)) × Wrote s p t

module _ (s : Store) (is_open : s.is_open ≡ true) (unfailed : s.failed ≡ none) where
  flush_pending-flushed :
      (bs : List ℕ)
      → s.pending ≡ bs
      → flush_pending s bs ≡ (record s { contents = s.contents ++ bs; pending = [] }, ok tt)
  unfolding flush_pending
  flush_pending-flushed [] e = ground (arith, append-nil s.contents)
  flush_pending-flushed (b ∷ bs) e = ground arith

  -- Flushing moves the buffered bytes to the file.
  pub flush-flushed : flush s ≡ (record s { contents = bytes s; pending = [] }, ok tt)
  unfolding flush
  flush-flushed = ground (arith, flush_pending-flushed s.pending refl)

  write_file-Writes : (p : List ℕ) → s.pending ≡ [] → Writes s p (write_file s p)
  unfolding write_file
  write_file-Writes p e = (
    record s { contents = s.contents ++ p },
    ground arith,
    record {
      is_open = is_open;
      unfailed = unfailed;
      wrote = ground (arith, append-nil (s.contents ++ p), append-nil s.contents);
      same_size = refl;
    },
  )

-- The rest of a long write goes into the empty buffer, or straight to the file.
buf_rest-Writes :
    (s : Store) (p : List ℕ)
    → s.is_open ≡ true
    → s.failed ≡ none
    → s.pending ≡ []
    → Writes s p (buf_rest (s, ok tt) p)
unfolding buf_rest
buf_rest-Writes s p is_open unfailed empty = elim (Bool-cases (leb (length p) buf_size)) [
  | inl fits ↦ (
    record s { pending = p },
    rw fits,
    record {
      is_open = is_open;
      unfailed = unfailed;
      wrote = ground (arith, append-nil s.contents);
      same_size = refl;
    },
  )
  | inr long ↦ rw long (write_file-Writes s is_open unfailed p empty)
]

Wrote-trans :
    (s t u : Store) (p q r : List ℕ) → Wrote s p t → Wrote t q u → p ++ q ≡ r → Wrote s r u
Wrote-trans s t u p q r f g e = record {
  is_open = g.is_open;
  unfailed = g.unfailed;
  wrote =
      g.wrote ∙ ap (λ l. l ++ q) f.wrote ∙ append_assoc (bytes s) p q ∙ ap (λ l. bytes s ++ l) e;
  same_size = g.same_size ∙ f.same_size;
}

buf_spill-Writes :
    (s : Store) (old p : List ℕ)
    → s.is_open ≡ true
    → s.failed ≡ none
    → s.pending ≡ old
    → Writes s p (buf_spill s old p)
unfolding buf_spill flush_pending
buf_spill-Writes s [] p is_open unfailed e = write_file-Writes s is_open unfailed p e
buf_spill-Writes s (b ∷ bs) p is_open unfailed e =
    let room = buf_size - length (b ∷ bs) in
    let full = (b ∷ bs) ++ take room p in
    let t = record s { contents = s.contents ++ full; pending = [] } in
    let (u, eq, w) = buf_rest-Writes t (drop room p) is_open unfailed refl in
    (
      u,
      ground (arith, eq),
      Wrote-trans s t u (take room p) (drop room p) p
          (record {
            is_open = is_open;
            unfailed = unfailed;
            wrote = ground (
              arith,
              append-nil (s.contents ++ full),
              append_assoc s.contents (b ∷ bs) (take room p),
            );
            same_size = refl;
          })
          w (take-append-drop room p),
    )

-- Whether the bytes fit the buffer or not, they come behind those written before.
pub buf_write-Writes :
    (s : Store) (p : List ℕ) → s.is_open ≡ true → s.failed ≡ none → Writes s p (buf_write s p)
unfolding buf_write
buf_write-Writes s p is_open unfailed =
    elim (Bool-cases (leb (length p) (buf_size - length s.pending))) [
      | inl fits ↦ (
        record s { pending = s.pending ++ p },
        ground arith,
        record {
          is_open = is_open;
          unfailed = unfailed;
          wrote = sym (append_assoc s.contents s.pending p);
          same_size = refl;
        },
      )
      | inr long ↦
          let (u, eq, w) = buf_spill-Writes s s.pending p is_open unfailed refl in
          (u, ground (arith, eq), w)
    ]
