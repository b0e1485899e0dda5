-- ===== src/Server/ReadFile/Many.antt =====
-- What `read_n_files` does to the store: the files that it sends are locked for a reader in one walk,
-- and given back in another.
use sol_project.Prelude.{
  ℕ, zero, suc, ◌≡◌, refl, sym, ◌∙◌, subst⁻¹, some, List, [], ◌∷◌, ◌++◌, map, take, append-nil,
  append_assoc, same_refl, arith, bytes_key, if_true, if_false, ltb,
}
use sol_project.Hash.Chain.{find}
use sol_project.Hash.HashMap
use sol_project.Hash.HashMap.{entries}
use sol_project.Hash.HashMap.Remove.{modify-Changed}
use sol_project.Server.State.{
  FileName, File, Server, done, ◌>>=◌, Ends, Ends-map, inc32, put_back, through,
}
use sol_project.Server.FileLocks.{reader_lock, reader_unlock}
use sol_project.Server.Invariant.{IsFile, IsConsistent}
use sol_project.Server.Invariant.Walk.{Entries, Walked, Walked-nil, Entries-tail, Walked-cons}
use sol_project.Server.Invariant.Preserve.{
  Holds, through-IsConsistent, put_back-IsConsistent, put_back-Holds,
}
use sol_project.Server.ReadFile.{lock_readers, reader_unlock_all}

-- A file with one more reader.
abbrev pub with_reader : File → File
with_reader f = record f { n_readers = inc32 f.n_readers }

abbrev pub locked_entry : FileName × File → FileName × File
locked_entry e = (e.0, with_reader e.1)

with_reader-IsFile :
    (k : FileName) (f : File) (n : ℕ) → IsFile k f → IsFile k (record f { n_readers = n })
with_reader-IsFile k f n h = record {
  named = h.named;
  sized = h.sized;
  idle = h.idle;
  expellable = h.expellable;
  table = h.table;
  holder = h.holder;
}

-- What the loop leaves: the first files of the walk are locked and listed.
pub record LocksFirst (n : ℕ) (es : List (FileName × File)) (s : Server)
    (acc : List (FileName × File)) (r : Server × List (FileName × File)) : Type 0 where
  pub done_walk : Walked with_reader (take n es) s r.0
  pub listed : r.1 ≡ acc ++ map locked_entry (take n es)

reader_lock_idle : (f : File) → f.n_writers ≡ 0 → reader_lock f ≡ done (with_reader f)
unfolding reader_lock
reader_lock_idle f idle = if_false {b = ltb 0 f.n_writers} _ _ (ground (arith, idle))

pub lock_readers-LocksFirst :
    (n : ℕ) (es : List (FileName × File)) (s : Server) (acc : List (FileName × File))
    → IsConsistent s
    → Entries (take n es) s
    → Ends ⊥ (lock_readers n es s acc) (LocksFirst n es s acc)
unfolding lock_readers
lock_readers-LocksFirst zero es s acc i e = record {
  done_walk = Walked-nil with_reader s i;
  listed = sym (append-nil acc);
}
lock_readers-LocksFirst (suc n) [] s acc i e = record {
  done_walk = Walked-nil with_reader s i;
  listed = sym (append-nil acc);
}
lock_readers-LocksFirst (suc n) ((k, f) ∷ es) s acc i e =
    subst⁻¹
      (λ r.
        Ends ⊥ (r >>= λ file. lock_readers n es (put_back s k file) (acc ++ (k, file) ∷ []))
          (LocksFirst (suc n) ((k, f) ∷ es) s acc))
      (reader_lock_idle f h.idle)
      (Ends-map ⊥ (LocksFirst n es s1 (acc ++ (k, with_reader f) ∷ []))
        (LocksFirst (suc n) ((k, f) ∷ es) s acc) _
        (λ r g. record {
          done_walk = Walked-cons with_reader k f (take n es) s s1 e now r.0 g.done_walk;
          listed =
              g.listed ∙ append_assoc acc ((k, with_reader f) ∷ []) (map locked_entry (take n es));
        })
        (lock_readers-LocksFirst n es s1 (acc ++ (k, with_reader f) ∷ [])
          (put_back-IsConsistent s k f i there (with_reader f) (with_reader-IsFile k f _ h) refl)
          (Entries-tail with_reader k f (take n es) s s1 e now)))
  where
    there : HashMap.get s.files k ≡ some f
    there = unfold find in e.there k f (if_true _ _ (same_refl {K = FileName} k))

    h : IsFile k f
    h = i.stored.each k f there

    s1 : Server
    s1 = put_back s k (with_reader f)

    now : Holds s k (with_reader f) s1
    now = put_back-Holds s k f i there (with_reader f)

-- A reader's lock is given back.
pub reader_unlock-IsConsistent :
    (s : Server) (k : FileName) (f : File)
    → IsConsistent s
    → HashMap.get s.files k ≡ some f
    → IsConsistent (through s k reader_unlock)
reader_unlock-IsConsistent s k f i there =
    through-IsConsistent s k f i there reader_unlock
      (unfold reader_unlock in with_reader-IsFile k f _ (i.stored.each k f there))
      (unfold reader_unlock in refl)

-- The second walk, over the files as the first one left them.
pub reader_unlock_all-Walked :
    (es : List (FileName × File)) (s : Server)
    → IsConsistent s
    → Entries es s
    → Walked reader_unlock es s (reader_unlock_all es s)
unfolding reader_unlock_all
reader_unlock_all-Walked [] s i e = Walked-nil reader_unlock s i
reader_unlock_all-Walked ((k, f) ∷ es) s i e = Walked-cons reader_unlock k f es s s1 e now _ (
    reader_unlock_all-Walked es s1 (reader_unlock-IsConsistent s k f i there)
      (Entries-tail reader_unlock k f es s s1 e now))
  where
    there : HashMap.get s.files k ≡ some f
    there = unfold find in e.there k f (if_true _ _ (same_refl {K = FileName} k))

    s1 : Server
    s1 = through s k reader_unlock

    now : Holds s k (reader_unlock f) s1
    now = (modify-Changed s.files k reader_unlock f i.stored.valid there).finds
