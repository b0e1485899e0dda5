-- ===== src/Server/WriteFile/Append.antt =====
-- What appending comes to, on every branch. The lock of a file does not keep others from appending.
use sol_project.Prelude.{
  ℕ, ◌+◌, ◌^◌, ◌≤◌, ◌<◌, ◌≡◌, ◌⊎◌, refl, ap, subst⁻¹, true, false, none, some, List, [], ◌++◌,
  length, length-append, arith, bytes_key, if_true, if_false, inl, inr, Bool-cases, Option-cases,
  ltb, eqb,
}
use sol_project.Hash.HashMap
use sol_project.Hash.HashTable
use sol_project.Server.State.{
  FileName, Timespec, File, Server, Code, sa_success, sa_no_file, sa_no_open, sa_too_big, done,
  ◌>>=◌, Ends, Ends-map, add64, through,
}
use sol_project.Server.FileLocks.{writer_unlock}
use sol_project.Server.FileLocks.Laws.{written_by_one}
use sol_project.Server.Invariant.{IsFile, IsConsistent, IsBusy}
use sol_project.Server.Invariant.Steps.{get-IsStored}
use sol_project.Server.Invariant.Preserve.{put_back_same, locked-Ends}
use sol_project.Server.WriteFile.{
  grow_store, extend, append_refusal, append_checked, append_found, append_under_lock,
}
use sol_project.Server.WriteFile.Stores.{Stores}
use sol_project.Server.WriteFile.Laws.{StoresWell, grow_store-StoresWell}

-- Why an append is refused.
abbrev pub AppendRefused : ℕ → File → ℕ → ℕ → Code → Type 0
AppendRefused max_space f size fd code =
    ((code ≡ sa_no_open) × (HashTable.contains f.fd_open fd ≡ false))
    ⊎ ((code ≡ sa_too_big) × (max_space < f.size + size))

append_refusal_cases :
    (max_space : ℕ) (f : File) (size fd : ℕ)
    → f.size + size < 2 ^ 64
    → ((code : Code) × (append_refusal max_space f size fd ≡ some code)
        × AppendRefused max_space f size fd code)
      ⊎ ((append_refusal max_space f size fd ≡ none)
          × (HashTable.contains f.fd_open fd ≡ true)
          × (f.size + size ≤ max_space))
unfolding append_refusal
append_refusal_cases max_space f size fd h =
    let sum : add64 f.size size ≡ f.size + size = omega arith in
    elim (Bool-cases (HashTable.contains f.fd_open fd)) [
      | inr e ↦ inl (sa_no_open, ground (arith, e), inl (refl, e))
      | inl e ↦ elim (Bool-cases (ltb max_space (add64 f.size size))) [
        | inl big ↦ inl (sa_too_big, ground (arith, e, big), inr (refl, ground (arith, big, sum)))
        | inr fits ↦ inr (ground (arith, e, fits), e, ground (arith, fits, sum))
      ]
    ]

-- The file with `buf` behind its contents.
abbrev pub longer : File → ℕ → List ℕ → Timespec → File
longer f size buf now = record f {
  contents = f.contents ++ buf;
  size = f.size + size;
  last_use = now;
}

-- What an append comes to: nothing to append; no such file; a refusal; or the contents are longer.
abbrev pub Appends :
    Server → FileName → ℕ → List ℕ → ℕ → Timespec → Server × List File × Code → Type 0
Appends s path size buf fd now (s', expelled, code) =
    ((size ≡ 0) × (code ≡ sa_success) × (s' ≡ s))
    ⊎ ((HashMap.get s.files path ≡ none) × (code ≡ sa_no_file) × (s' ≡ s))
    ⊎ ((f : File) × (HashMap.get s.files path ≡ some f)
        × ((AppendRefused s.config.max_space f size fd code × (s' ≡ s))
            ⊎ ((HashTable.contains f.fd_open fd ≡ true)
                × (code ≡ sa_success)
                × Stores s path (longer f size buf now) s' expelled)))

module _ (s : Server) (path : FileName) (size : ℕ) (buf : List ℕ) (fd : ℕ) (now : Timespec)
    (i : IsConsistent s) (sized : length buf ≡ size) (fits : size < 2 ^ 63) where
  module _ (f : File) (e : HashMap.get s.files path ≡ some f) where
    bounded : f.size + size < 2 ^ 64
    bounded = omega (
      arith,
      (get-IsStored IsFile IsFile s.files s.curr_state.files s.curr_state.space i.stored path f
          e).1,
      i.small,
      i.config.space_fits,
    )

    extend-longer : extend (written_by_one f) size buf now ≡ written_by_one (longer f size buf now)
    unfolding extend
    extend-longer =
        ap (λ n. record f { n_writers = 1; contents = f.contents ++ buf; size = n; last_use = now })
          (let sum : add64 f.size size ≡ f.size + size = omega (arith, bounded) in sum)

    longer-IsFile : IsFile path (longer f size buf now)
    longer-IsFile =
        let h : IsFile path f = i.stored.each path f e in
        record {
          named = h.named;
          sized = omega (arith, h.sized, length-append f.contents buf, sized);
          idle = h.idle;
          expellable = h.expellable;
          table = h.table;
          holder = h.holder;
        }

    append_checked-Appends :
        Ends
          (IsBusy s.files)
          (append_checked s path size buf now
            (written_by_one f)
            (append_refusal s.config.max_space (written_by_one f) size fd))
          (Appends s path size buf fd now)
    append_checked-Appends =
        elim (append_refusal_cases s.config.max_space (written_by_one f) size fd bounded) [
          | inl (code, r, why) ↦
              subst⁻¹
                (λ o.
                  Ends (IsBusy s.files) (append_checked s path size buf now (written_by_one f) o)
                    (Appends s path size buf fd now))
                r
                (unfold append_checked in
                  subst⁻¹ (λ s'. Appends s path size buf fd now (s', [], code))
                    (put_back_same s path f i e) (inr (inr (f, e, inl (why, refl)))))
          | inr (r, opened, room) ↦
              subst⁻¹
                (λ o.
                  Ends (IsBusy s.files) (append_checked s path size buf now (written_by_one f) o)
                    (Appends s path size buf fd now))
                r
                (unfold append_checked in
                  Ends-map (IsBusy s.files) (StoresWell s path (longer f size buf now))
                    (Appends s path size buf fd now) _
                    (λ q h. inr (inr (f, e, inr (opened, h.1, h.0))))
                    (subst⁻¹
                      (λ g.
                        Ends (IsBusy s.files)
                          (grow_store s path g size >>= λ q.
                            done (through q.0 path writer_unlock, q.1, sa_success))
                          (StoresWell s path (longer f size buf now)))
                      extend-longer
                      (grow_store-StoresWell s path f (longer f size buf now) size i e longer-IsFile
                        refl room refl)))
        ]

  append_found-Appends :
      Ends
        (IsBusy s.files)
        (append_found s path size buf fd now (HashMap.get s.files path))
        (Appends s path size buf fd now)
  append_found-Appends = elim (Option-cases (HashMap.get s.files path)) [
    | inl e ↦
        subst⁻¹
          (λ o.
            Ends (IsBusy s.files) (append_found s path size buf fd now o)
              (Appends s path size buf fd now))
          e (unfold append_found in inr (inl (e, refl, refl)))
    | inr (f, e) ↦
        subst⁻¹
          (λ o.
            Ends (IsBusy s.files) (append_found s path size buf fd now o)
              (Appends s path size buf fd now))
          e
          (unfold append_found in
            locked-Ends s path f i e (Appends s path size buf fd now) _
              (append_checked-Appends f e))
  ]

  -- An append of fewer than 2 ^ 63 bytes to a consistent server: nothing to do for no bytes;
  -- without such a file, sa_no_file; if the client has not opened the file, or the file would be
  -- above the limit, the code says which of these is so, and the server is as it was; otherwise
  -- the file has the buffer behind its contents, other files are gone only if they are in the list
  -- of expelled files, and the server is consistent. The request may wait only if some stored file
  -- is being read.
  pub append_under_lock-Appends :
      Ends
        (IsBusy s.files)
        (append_under_lock s path size buf fd now)
        (Appends s path size buf fd now)
  unfolding append_under_lock
  append_under_lock-Appends = elim (Bool-cases (eqb size 0)) [
    | inl t ↦
        subst⁻¹ (λ r. Ends (IsBusy s.files) r (Appends s path size buf fd now)) (if_true _ _ t)
          (inl (ground (arith, t), refl, refl))
    | inr other ↦
        subst⁻¹ (λ r. Ends (IsBusy s.files) r (Appends s path size buf fd now)) (if_false _ _ other)
          append_found-Appends
  ]
