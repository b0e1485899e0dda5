-- ===== src/Server/OpenFile/Create.antt =====
-- What creating a file does to the store.
use sol_project.Prelude.{
  ℕ, ◌+◌, ◌≡◌, ◌≢◌, ◌⊎◌, refl, sym, ap, ◌∙◌, subst⁻¹, true, false, Option, none, some, List, [],
  ◌∷◌, arith, bytes_key, same_refl, In, if◌then◌else◌, if_true, if_false, inl, inr, Option-cases,
}
use sol_project.Hash.Chain.{is_some}
use sol_project.Hash.HashMap
use sol_project.Hash.HashMap.{entries}
use sol_project.Hash.HashMap.Growth.{contains-get}
use sol_project.Hash.HashMap.Insert.{Added, insert-Added}
use sol_project.Hash.HashMap.Remove.{Changed, modify-Changed}
use sol_project.Hash.HashTable
use sol_project.Hash.HashTable.{default_hash}
use sol_project.Hash.HashTable.Laws.{init-IsTable, contains-init, insert-IsTable, contains-insert}
use sol_project.Server.State.{
  FileName, Timespec, File, Files, Server, Code, sa_success, sa_exists, done, ◌>>=◌, Ends,
  Ends-bind, inc32,
}
use sol_project.Server.FileLocks.{writer_lock, writer_unlock}
use sol_project.Server.FileLocks.Laws.{written_by_one}
use sol_project.Server.Invariant.{IsFile, IsStored, IsConsistent, IsBusy}
use sol_project.Server.Invariant.Steps.{insert-IsStored, modify-IsStored}
use sol_project.Server.Replacement.Protected.{Beside}
use sol_project.Server.OpenFile.{
  o_lock, is_flag_set, create_file, make_room, add_file, install, open_create,
}
use sol_project.Server.WriteFile.Stores.{Stores}
use sol_project.Server.OpenFile.Room.{Roomy, RoomyAfter, make_room-Roomy}

-- The file that a creation stores.
abbrev pub new_file : FileName → ℕ → ℕ → Timespec → Timespec → File
new_file path flags fd created used = record {
  path_name = path;
  contents = [];
  size = 0;
  fd_lock = if is_flag_set flags o_lock then some fd else none;
  fd_open = HashTable.insert (HashTable.init 4 default_hash) fd;
  n_readers = 0;
  n_writers = 0;
  creation_time = created;
  last_use = used;
  can_be_expelled = true;
}

new_file-IsFile :
    (path : FileName) (flags fd : ℕ) (created used : Timespec)
    → IsFile path (new_file path flags fd created used)
new_file-IsFile path flags fd created used = record {
  named = refl;
  sized = refl;
  idle = refl;
  expellable = refl;
  table = insert-IsTable _ fd (init-IsTable 4 (omega arith)) (contains-init 4 fd);
  holder = λ c e.
      contains-insert _ fd c (init-IsTable 4 (omega arith)) (contains-init 4 fd)
      ∙ ground (arith, e);
}

-- The expelled file, as a list.
abbrev pub thrown_away : Option File → List File
thrown_away none = []
thrown_away (some f) = f ∷ []

In-thrown_away : (o : Option File) (h : File) → o ≡ some h → In h (thrown_away o)
In-thrown_away none h e = cc
In-thrown_away (some f) h e = inl (ground (arith, e))

-- A new file in a store with room.
install-Stores :
    (s s1 : Server) (path : FileName) (g : File) (expelled : Option File)
    → Roomy s s1 expelled
    → HashMap.get s.files path ≡ none
    → IsFile path g
    → g.size ≡ 0
    → Stores s path g (install s1 path (written_by_one g)) (thrown_away expelled)
unfolding install add_file writer_unlock
install-Stores s s1 path g expelled m absent h empty = record {
  consistent = record {
    config = record {
      some_files = i.config.some_files;
      files_fit = i.config.files_fit;
      space_fits = i.config.space_fits;
    };
    stored = rw n (
        modify-IsStored (Beside path wg) IsFile m1 _ _ stored1 path writer_unlock wg
          s1.curr_state.space there1 (subst⁻¹ (IsFile path) back h) (λ k x other p. p.0 other)
          (omega (arith, empty)));
    few = omega (arith, n, m.room);
    small = i.small;
    files_peak = ground arith;
    space_peak = i.space_peak;
    files_bound = ground (arith, n, m.room, i.files_bound);
    space_bound = i.space_bound;
  };
  there = c.finds path ∙ if_true _ _ (same_refl path) ∙ ap some back;
  before = λ k x other q. m.before k x (ground (arith, a.finds k, c.finds k, other, q));
  after = λ k x other q. elim (m.after k x q) [
    | inl e ↦ inl (ground (arith, a.finds k, c.finds k, other, e))
    | inr e ↦ inr (In-thrown_away expelled x e)
  ];
}
  where
    i : IsConsistent s1
    i = m.consistent

    n : inc32 s1.curr_state.files ≡ s1.curr_state.files + 1
    n = omega (arith, m.room, i.config.files_fit)

    wg : File
    wg = record g { n_writers = 1; can_be_expelled = true }

    back : writer_unlock wg ≡ g
    back =
        ap (λ x. record g { n_writers = x; can_be_expelled = true }) (sym h.idle)
        ∙ ap (λ x. record g { can_be_expelled = x }) (sym h.expellable)

    m1 : Files
    m1 = HashMap.insert s1.files path wg

    absent1 : HashMap.get s1.files path ≡ none
    absent1 = elim (Option-cases (HashMap.get s1.files path)) [
      | inl e ↦ e
      | inr (x, e) ↦ ground (arith, m.before path x e, absent)
    ]

    a : Added s1.files path wg m1
    a = insert-Added s1.files path wg i.stored.valid absent1

    there1 : HashMap.get m1 path ≡ some wg
    there1 = a.finds path ∙ if_true _ _ (same_refl path)

    stored1 : IsStored (Beside path wg) m1 (s1.curr_state.files + 1) (s1.curr_state.space + wg.size)
    stored1 =
        insert-IsStored IsFile (Beside path wg) s1.files _ _ i.stored path wg absent1
          ((λ other. ground (arith, other, same_refl path)), (λ _. refl))
          (λ k x other p. ((λ _. p), (λ t. ground (arith, t, other))))

    c : Changed m1 path wg (writer_unlock wg) (HashMap.modify m1 path writer_unlock)
    c = modify-Changed m1 path writer_unlock wg a.valid there1

-- What a creation comes to: the file exists, and nothing changes; or the new file is stored.
abbrev pub Creates :
    Server → FileName → ℕ → ℕ → Timespec → Timespec → Server × Option File × Code → Type 0
Creates s path flags fd created used (s', expelled, code) =
    ((HashMap.get s.files path ≢ none) × (code ≡ sa_exists) × (s' ≡ s))
    ⊎ ((HashMap.get s.files path ≡ none)
        × (code ≡ sa_success)
        × Stores s path (new_file path flags fd created used) s' (thrown_away expelled))

created-eq :
    (path : FileName) (flags fd : ℕ) (created used : Timespec)
    → create_file path flags fd created used
      ≡ done
          (record (new_file path flags fd created used) { n_writers = 1; can_be_expelled = false })
unfolding create_file writer_lock
created-eq path flags fd created used = refl

-- Opening with O_CREATE on a consistent server: if the file exists, sa_exists and the server is as
-- it was; otherwise a new empty file is stored that the client has open, and holds the lock of if
-- it asked, every other file is as it was except for at most one that is expelled, and the server
-- is consistent, its bounds and peaks included. The request may wait only if some stored file is
-- being read.
pub open_create-Creates :
    (s : Server) (path : FileName) (flags fd : ℕ) (created used : Timespec)
    → IsConsistent s
    → Ends
        (IsBusy s.files)
        (open_create s path flags fd created used)
        (Creates s path flags fd created used)
unfolding open_create
open_create-Creates s path flags fd created used i =
    elim (Option-cases (HashMap.get s.files path)) [
      | inr (f, e) ↦
          subst⁻¹ (λ r. Ends (IsBusy s.files) r (Creates s path flags fd created used))
            (if_true _ _ (contains-get s.files path ∙ ap is_some e))
            (inl ((λ x. ground (arith, x, e)), refl, refl))
      | inl e ↦
          subst⁻¹ (λ r. Ends (IsBusy s.files) r (Creates s path flags fd created used))
            (if_false _ _ (contains-get s.files path ∙ ap is_some e))
            (subst⁻¹
              (λ r.
                Ends (IsBusy s.files)
                  (r >>= λ file. make_room s >>= λ q. done (install q.0 path file, q.1, sa_success))
                  (Creates s path flags fd created used))
              (created-eq path flags fd created used)
              (Ends-bind (IsBusy s.files) (RoomyAfter s) (Creates s path flags fd created used)
                (make_room s) _ (make_room-Roomy s i)
                λ q _ m. inr (
                  e,
                  refl,
                  unfold install in
                      install-Stores s q.0 path (new_file path flags fd created used) q.1 m e
                        (new_file-IsFile path flags fd created used) refl,
                )))
    ]
