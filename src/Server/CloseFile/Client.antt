-- ===== src/Server/CloseFile/Client.antt =====
-- What `close_client` does to the store: it closes every file for the client, in one walk.
use sol_project.Prelude.{
  ℕ, ◌<◌, ◌≡◌, refl, sym, ap, ◌∙◌, subst, subst⁻¹, Option, none, some, List, [], ◌∷◌, arith,
  bytes_key, same_refl, ◌==◌, if_true, if_false, inl, inr, Bool-cases,
}
use sol_project.Hash.Chain.{find}
use sol_project.Hash.HashMap
use sol_project.Hash.HashMap.{entries}
use sol_project.Hash.HashMap.Growth.{IsValid, get-entries}
use sol_project.Hash.HashTable.Laws.{IsTable, contains-remove}
use sol_project.Server.State.{
  FileName, File, Server, Outcome, done, Ends, Ends-map, Ends-busy, dec32, put_back,
}
use sol_project.Server.FileLocks.{writer_unlock}
use sol_project.Server.FileLocks.Laws.{written_by_one, writer_unlock-lock}
use sol_project.Server.Invariant.{IsFile, IsConsistent, IsBusy}
use sol_project.Server.Invariant.Walk.{
  walked, Entries, Walked, Walked-nil, Entries-tail, Walked-cons,
}
use sol_project.Server.Invariant.Preserve.{
  Holds, put_back-IsConsistent, put_back-Holds, locked-Ends,
}
use sol_project.Server.CloseFile.{leave, leave_all, close_client}
use sol_project.Server.CloseFile.Counts.{close_client-curr_state}
use sol_project.Server.CloseFile.Laws.{IsLeft, leave-IsFile}

module _ (fd : ℕ) where
  abbrev without : File → File
  without f = leave f fd

  leave_all-Walked :
      (B : Type 0) (es : List (FileName × File)) (s : Server)
      → IsConsistent s
      → Entries es s
      → (IsBusy s.files → B)
      → Ends B (leave_all es s fd) (Walked without es s)
  unfolding leave_all
  leave_all-Walked B [] s i entries_of busy = Walked-nil without s i
  leave_all-Walked B ((k, f) ∷ es) s i entries_of busy =
      Ends-busy (IsBusy s.files) B (Walked without ((k, f) ∷ es) s) _ busy (
        locked-Ends s k f i e (Walked without ((k, f) ∷ es) s) _ (
          subst⁻¹
            (λ g.
              Ends (IsBusy s.files) (leave_all es (put_back s k g) fd)
                (Walked without ((k, f) ∷ es) s))
            back
            (Ends-map (IsBusy s.files) (Walked without es (put_back s k (leave f fd)))
              (Walked without ((k, f) ∷ es) s) _ (Walked-cons without k f es s _ entries_of now)
              (leave_all-Walked (IsBusy s.files) es (put_back s k (leave f fd))
                (put_back-IsConsistent s k f i e (leave f fd) (leave-IsFile k f fd h)
                  (unfold leave in refl))
                (Entries-tail without k f es s _ entries_of now) busier))))
    where
      e : HashMap.get s.files k ≡ some f
      e = entries_of.there k f (unfold find in if_true _ _ (same_refl {K = FileName} k))

      h : IsFile k f
      h = i.stored.each k f e

      back : writer_unlock (leave (written_by_one f) fd) ≡ leave f fd
      back = unfold leave in writer_unlock-lock (leave f fd) h.idle

      now : Holds s k (leave f fd) (put_back s k (leave f fd))
      now = put_back-Holds s k f i e (leave f fd)

      busier : IsBusy (put_back s k (leave f fd)).files → IsBusy s.files
      busier (q, g, x, r) = elim (Bool-cases (q == k)) [
        | inl t ↦
            let same : g ≡ leave f fd = ground (arith, now q, t, x) in
            (
              k,
              f,
              e,
              subst (λ y. 0 < y) (ap (λ (y : File). y.n_readers) same ∙ (unfold leave in refl)) r,
            )
        | inr t ↦ (q, g, sym (if_false _ _ t) ∙ sym (now q) ∙ x, r)
      ]

left : ℕ → Option File → Option File
left fd none = none
left fd (some f) = some (leave f fd)

-- All of a file but who has it open and who holds its lock.
abbrev pub KeepsRest : File → File → Type 0
KeepsRest f g =
    (g.path_name ≡ f.path_name)
    × (g.size ≡ f.size)
    × (g.n_readers ≡ f.n_readers)
    × (g.n_writers ≡ f.n_writers)
    × (g.creation_time ≡ f.creation_time)
    × (g.last_use ≡ f.last_use)
    × (g.can_be_expelled ≡ f.can_be_expelled)

-- What a key finds before and after: nothing both times, or the same file without the client.
abbrev pub Forgets : ℕ → Option File → Option File → Type 0
Forgets fd none after = after ≡ none
Forgets fd (some f) after = (g : File) × (after ≡ some g) × IsLeft f fd g × KeepsRest f g

-- Every stored file without the client, and nothing else.
abbrev pub ClosesAll : Server → ℕ → Server → Type 0
ClosesAll s fd s' =
    IsConsistent s'
    × ((q : FileName) → Forgets fd (HashMap.get s.files q) (HashMap.get s'.files q))
    × (s'.curr_state ≡ record s.curr_state { conn = dec32 s.curr_state.conn })

left-Forgets :
    (fd : ℕ) (before after : Option File)
    → ((q : FileName) (f : File) → before ≡ some f → IsTable f.fd_open)
    → after ≡ left fd before
    → Forgets fd before after
unfolding left leave
left-Forgets fd none after tables e = e
left-Forgets fd (some f) after tables e = (
  leave f fd,
  e,
  (λ c. contains-remove f.fd_open fd c (tables f.path_name f refl), refl, refl),
  (refl, refl, refl, refl, refl, refl, refl),
)

done_map :
    (B : Type 0) (P Q : Server → Type 0) (r : Outcome Server)
    → ((s : Server) → r ≡ done s → P s → Q s)
    → Ends B r P
    → Ends B r Q
done_map B P Q (done s) f h = f s refl h
done_map B P Q Outcome.blocked f h = h
done_map B P Q Outcome.aborted f h = h
done_map B P Q Outcome.crashed f h = h
done_map B P Q Outcome.diverged f h = h

-- When a client leaves a consistent server, it is no longer in the table of any stored file, whose
-- other clients are those that were, and no lock is its own any more, while the others are as they
-- were; the rest of each file is as it was, no file comes or goes, there is one connection less,
-- wrapping at 0, and no other count changes; and the server is consistent. The closing may wait
-- only if some stored file is being read.
pub close_client-ClosesAll :
    (s : Server) (fd : ℕ)
    → IsConsistent s
    → Ends (IsBusy s.files) (close_client s fd) (ClosesAll s fd)
unfolding close_client
close_client-ClosesAll s fd i =
    done_map (IsBusy s.files) (Walked (λ f. leave f fd) (entries s.files) s1) (ClosesAll s fd) _
      (λ s' e h. (
        h.consistent,
        (λ q.
            left-Forgets fd (HashMap.get s.files q) (HashMap.get s'.files q)
              (λ _ f x. (i.stored.each q f x).table)
              (h.finds q
                ∙ ap (λ o. walked (λ f. leave f fd) o (HashMap.get s.files q))
                    (sym (get-entries s.files q v))
                ∙ walked_same (HashMap.get s.files q))),
        close_client-curr_state s fd s' e,
      ))
      (leave_all-Walked fd (IsBusy s.files) (entries s.files) s1 i1
        (record { unique = v.unique; there = λ q f x. get-entries s.files q v ∙ x }) (λ b. b))
  where
    v : IsValid s.files
    v = i.stored.valid

    s1 : Server
    s1 = record s { curr_state = record s.curr_state { conn = dec32 s.curr_state.conn } }

    i1 : IsConsistent s1
    i1 = record {
      config = record {
        some_files = i.config.some_files;
        files_fit = i.config.files_fit;
        space_fits = i.config.space_fits;
      };
      stored = i.stored;
      few = i.few;
      small = i.small;
      files_peak = i.files_peak;
      space_peak = i.space_peak;
      files_bound = i.files_bound;
      space_bound = i.space_bound;
    }

    walked_same : (o : Option File) → walked (λ f. leave f fd) o o ≡ left fd o
    walked_same none = unfold left in refl
    walked_same (some f) = unfold left in refl
