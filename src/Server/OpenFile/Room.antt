-- ===== src/Server/OpenFile/Room.antt =====
-- The expulsion that makes room for a new file.
use sol_project.Prelude.{
  ◌-◌, ◌<◌, ◌≡◌, ◌⊎◌, refl, ap, subst⁻¹, Option, some, List, [], ◌∷◌, arith, bytes_key,
  bytes-same_iff, ◌==◌, In, weigh, if_true, if_false, inl, inr, Bool-cases, eqb,
}
use sol_project.Hash.HashMap
use sol_project.Hash.HashMap.{entries}
use sol_project.Hash.HashMap.Remove.{Taken, remove-Taken}
use sol_project.Server.State.{FileName, File, Server, Ends, Ends-bind, dec32, sub64}
use sol_project.Server.Invariant.{IsFile, IsConsistent, IsBusy}
use sol_project.Server.Invariant.Steps.{remove-IsStored, get-IsStored}
use sol_project.Server.Replacement.{discharge, expell_single_file}
use sol_project.Server.Replacement.Expell.{In-get, Expels, expell_single_file-Expels}
use sol_project.Server.OpenFile.{after_expulsion, make_room}

-- A store with fewer files than may be, in which every file is one of `s`, and of those of `s` only
-- the expelled one is missing.
pub record Roomy (s : Server) (s' : Server) (expelled : Option File) : Type 0 where
  pub consistent : IsConsistent s'
  pub room : s'.curr_state.files < s'.config.max_files
  pub before :
      (k : FileName) (h : File) → HashMap.get s'.files k ≡ some h → HashMap.get s.files k ≡ some h
  pub after :
      (k : FileName) (h : File)
      → HashMap.get s.files k ≡ some h
      → (HashMap.get s'.files k ≡ some h) ⊎ (expelled ≡ some h)

abbrev pub RoomyAfter : Server → Server × Option File → Type 0
RoomyAfter s r = Roomy s r.0 r.1

discharge-Roomy :
    (s : Server) (f : File)
    → IsConsistent s
    → HashMap.get s.files f.path_name ≡ some f
    → Roomy s (discharge s f (HashMap.remove s.files f.path_name).1) (some f)
unfolding discharge
discharge-Roomy s f i e =
    let (some_there, its_bytes) = get-IsStored IsFile IsFile s.files _ _ i.stored f.path_name f e in
    let n : dec32 s.curr_state.files ≡ s.curr_state.files - 1 =
      omega (arith, i.few, i.config.files_fit) in
    let b : sub64 s.curr_state.space f.size ≡ s.curr_state.space - f.size =
      omega (arith, i.small, i.config.space_fits) in
    let t : Taken s.files f.path_name f (HashMap.remove s.files f.path_name).1 =
      (remove-Taken s.files f.path_name f i.stored.valid e).1 in
    record {
      consistent = record {
        config = record {
          some_files = i.config.some_files;
          files_fit = i.config.files_fit;
          space_fits = i.config.space_fits;
        };
        stored =
            rw (n, b)
              (remove-IsStored IsFile IsFile s.files _ _ i.stored f.path_name f e (λ k h p. p));
        few = omega (arith, n, i.few);
        small = omega (arith, b, i.small);
        files_peak = omega (arith, n, i.files_peak);
        space_peak = omega (arith, b, i.space_peak);
        files_bound = i.files_bound;
        space_bound = i.space_bound;
      };
      room = omega (arith, n, i.few);
      before = λ k h r. ground (arith, t.finds k, r);
      after = λ k h r. elim (Bool-cases (k == f.path_name)) [
        | inl same ↦
            inr (
              ground
                (arith, ap (HashMap.get s.files) ((bytes-same_iff k f.path_name).0 same), r, e))
        | inr other ↦ inl (ground (arith, other, t.finds k, r))
      ];
    }

first_In : {A : Type 0} (es : List A) → 0 < weigh (λ _. 1) es → (x : A) × In x es
first_In [] h = absurd (omega (arith, h))
first_In (e ∷ es) h = (e, inl refl)

-- There is room then, or the thread waits for a reader.
pub make_room-Roomy :
    (s : Server) → IsConsistent s → Ends (IsBusy s.files) (make_room s) (RoomyAfter s)
unfolding make_room
make_room-Roomy s i = elim (Bool-cases (eqb s.curr_state.files s.config.max_files)) [
  | inr free ↦
      subst⁻¹ (λ r. Ends (IsBusy s.files) r (RoomyAfter s)) (if_false _ _ free)
        (record {
          consistent = i;
          room = ground (arith, free, i.few);
          before = λ k h e. e;
          after = λ k h e. inl e;
        })
  | inl full ↦
      let some_there : 0 < weigh (λ _. 1) (entries s.files) =
        ground (arith, full, i.config.some_files, i.stored.files) in
      let ((k, f), m) = first_In (entries s.files) some_there in
      let e = In-get s.files k f i.stored.valid m in
      subst⁻¹ (λ r. Ends (IsBusy s.files) r (RoomyAfter s)) (if_true _ _ full)
        (Ends-bind (IsBusy s.files) (Expels s) (RoomyAfter s) (expell_single_file s) _
          (expell_single_file-Expels IsFile s _ _ i.stored (λ j g x. (x.named, λ _. x.idle)) k f e
            (i.stored.each k f e).expellable)
          λ r _ (g, there, _, _, taken).
            subst⁻¹ (λ o. RoomyAfter s (after_expulsion s o)) taken (discharge-Roomy s g i there))
]
