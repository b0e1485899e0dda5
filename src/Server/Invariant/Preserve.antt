-- ===== src/Server/Invariant/Preserve.antt =====
-- Changes that every handler makes, and the invariant.
use sol_project.Prelude.{◌≡◌, refl, ap, subst⁻¹, some, arith, bytes_key, ◌==◌, if◌then◌else◌}
use sol_project.Hash.HashMap
use sol_project.Hash.HashMap.Remove.{modify-Changed, modify_same}
use sol_project.Server.State.{FileName, File, Server, Outcome, ◌>>=◌, Ends, through, put_back}
use sol_project.Server.FileLocks.{writer_lock, writer_unlock}
use sol_project.Server.FileLocks.Laws.{written_by_one, writer_lock-Ends, writer_unlock-lock}
use sol_project.Server.Invariant.{IsFile, IsConsistent, IsBusy}
use sol_project.Server.Invariant.Steps.{modify-IsStored}

-- What the map of `s'` holds: what that of `s` does, and `f` under `path`.
abbrev pub Holds : Server → FileName → File → Server → Type 0
Holds s path f s' =
    (q : FileName) → HashMap.get s'.files q ≡ (if q == path then some f else HashMap.get s.files q)

module _ (s : Server) (path : FileName) (f : File) (i : IsConsistent s)
    (e : HashMap.get s.files path ≡ some f) where
  -- A stored file as it is described.
  pub get-IsFile : IsFile path f
  get-IsFile = i.stored.each path f e

  -- A change of the file that keeps its size.
  pub through-IsConsistent :
      (g : File → File) → IsFile path (g f) → (g f).size ≡ f.size → IsConsistent (through s path g)
  through-IsConsistent g h same_size = record {
    config = record {
      some_files = i.config.some_files;
      files_fit = i.config.files_fit;
      space_fits = i.config.space_fits;
    };
    stored =
        modify-IsStored IsFile IsFile s.files s.curr_state.files s.curr_state.space i.stored path g
          f s.curr_state.space e h (λ k x _ p. p) (omega arith);
    few = i.few;
    small = i.small;
    files_peak = i.files_peak;
    space_peak = i.space_peak;
    files_bound = i.files_bound;
    space_bound = i.space_bound;
  }

  pub put_back-IsConsistent :
      (g : File) → IsFile path g → g.size ≡ f.size → IsConsistent (put_back s path g)
  put_back-IsConsistent g = through-IsConsistent (λ _. g)

  pub put_back-Holds : (g : File) → Holds s path g (put_back s path g)
  put_back-Holds g = (modify-Changed s.files path (λ _. g) f i.stored.valid e).finds

  -- A file put back as it was.
  pub put_back_same : put_back s path (writer_unlock (written_by_one f)) ≡ s
  put_back_same =
      subst⁻¹ (λ g. put_back s path g ≡ s) (writer_unlock-lock f get-IsFile.idle)
        (ap (λ m. record s { files = m }) (modify_same s.files path (λ _. f) f e refl))

  -- A handler that goes on with the file under its writer lock, or waits for a reader.
  pub locked-Ends {ℓ} :
      {A : Type ℓ} (P : A → Type 0) (next : File → Outcome A)
      → Ends (IsBusy s.files) (next (written_by_one f)) P
      → Ends (IsBusy s.files) (writer_lock f >>= next) P
  locked-Ends P next h =
      writer_lock-Ends (IsBusy s.files) P f next get-IsFile.idle (λ r. (path, f, e, r)) h
