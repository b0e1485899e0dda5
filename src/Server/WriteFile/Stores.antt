-- ===== src/Server/WriteFile/Stores.antt =====
-- The end of a write: the peak, the unlocked file, and the invariant of the store.
use sol_project.Prelude.{
  ◌≡◌, ◌⊎◌, refl, sym, ◌∙◌, false, some, List, arith, bytes_key, same_refl, ◌==◌, if_true, if_false,
  inl, inr, In,
}
use sol_project.Hash.HashMap
use sol_project.Hash.HashMap.Remove.{Changed, modify-Changed}
use sol_project.Server.State.{FileName, File, Server, through}
use sol_project.Server.FileLocks.{writer_unlock}
use sol_project.Server.Invariant.{IsFile, IsConsistent}
use sol_project.Server.Invariant.Steps.{modify-IsStored}
use sol_project.Server.Replacement.Protected.{Beside}
use sol_project.Server.WriteFile.{raise_peak}
use sol_project.Server.WriteFile.Grow.{Grows}

-- The store that is left when `g` has been written at `path`, and the files that were expelled for it:
-- every other file is as it was, or is among them.
pub record Stores (s : Server) (path : FileName) (g : File) (s' : Server) (expelled : List File)
    : Type 0 where
  pub consistent : IsConsistent s'
  pub there : HashMap.get s'.files path ≡ some g
  pub before :
      (k : FileName) (h : File)
      → (k == path) ≡ false
      → HashMap.get s'.files k ≡ some h
      → HashMap.get s.files k ≡ some h
  pub after :
      (k : FileName) (h : File)
      → (k == path) ≡ false
      → HashMap.get s.files k ≡ some h
      → (HashMap.get s'.files k ≡ some h) ⊎ In h expelled

pub Grows-Stores :
    (s : Server) (path : FileName) (file : File) (r : Server × List File)
    → IsConsistent s
    → IsFile path (writer_unlock file)
    → Grows s path file r
    → Stores s path (writer_unlock file) (through (raise_peak r.0) path writer_unlock) r.1
unfolding raise_peak writer_unlock
Grows-Stores s path file r i written h = record {
  consistent = record {
    config = record {
      some_files = rw h.config i.config.some_files;
      files_fit = rw h.config i.config.files_fit;
      space_fits = rw h.config i.config.space_fits;
    };
    stored =
        modify-IsStored (Beside path file) IsFile r.0.files _ _ h.stored path writer_unlock file
          r.0.curr_state.space h.kept written (λ k g other p. p.0 other) refl;
    few = rw h.config (omega (arith, h.fewer, i.few));
    small = rw h.config h.small;
    files_peak = omega (arith, h.fewer, h.files_peak, i.files_peak);
    space_peak = ground arith;
    files_bound = rw (h.config, h.files_peak) i.files_bound;
    space_bound = rw h.config (ground (arith, h.small, h.space_peak, i.space_bound));
  };
  there = c.finds path ∙ if_true _ _ (same_refl path);
  before = λ k g other q. h.before k g other (sym (if_false _ _ other) ∙ sym (c.finds k) ∙ q);
  after = λ k g other q. elim (h.after k g other q) [
    | inl there ↦ inl (c.finds k ∙ if_false _ _ other ∙ there)
    | inr m ↦ inr m
  ];
}
  where
    c :
        Changed r.0.files path file
          (writer_unlock file)
          (HashMap.modify r.0.files path writer_unlock)
    c = modify-Changed r.0.files path writer_unlock file h.stored.valid h.kept
