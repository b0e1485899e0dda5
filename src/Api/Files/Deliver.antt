-- ===== src/Api/Files/Deliver.antt =====
-- The files that the server sends, on the client's disk.
use sol_project.Prelude.{
  ℕ, suc, ◌≡◌, ◌≢◌, refl, ap, Bool, true, Option, none, some, List, [], ◌∷◌, ◌++◌, map, length,
  arith, eqb, ltb, if◌then◌else◌, if_true, if_false, subst⁻¹, false, ◌∙◌, inl, inr, In,
}
use sol_project.Io.{Input, readn}
use sol_project.Io.Laws.{stream, Nonempty}
use sol_project.Server.State.{File, done, sa_success}
use sol_project.Server.Requests.{to_bytes, from_bytes, code_value}
use sol_project.Server.Requests.Laws.{
  IsString, c_string-append, length-to_bytes, from_bytes-to_bytes,
}
use sol_project.Server.Send.{send_list_of_files}
use sol_project.Server.Send.Wire.{open_to}
use sol_project.Api.State.{Result, returns, fails, ecanceled, arrived, convert_res_to_errno}
use sol_project.Api.Files.{
  Disk, from_last_slash, remove_path_from_name, write_over, write_all, write_list_of_files_into_dir,
  weigh_written, Received, receive_files, arriving, write_files_sent_by_server,
}
use sol_project.Api.Files.Laws.{IsSendable, sent, Receives, send_list_of_files-Receives}
use sol_project.Api.Arrivals.{Arrives, readn-Arrives}

abbrev pub Slashless : List ℕ → Type 0
Slashless [] = Unit {0}
Slashless (b ∷ bs) = (b ≢ 47) × Slashless bs

from_last_slash-none : (base : List ℕ) → Slashless base → from_last_slash base ≡ none
unfolding from_last_slash
from_last_slash-none [] h = refl
from_last_slash-none (b ∷ bs) h =
    rw (from_last_slash, from_last_slash-none bs h.1)
      (if_false {b = eqb b 47} _ _ (ground (arith, h.0)))

from_last_slash-append :
    (dir base : List ℕ) → Slashless base → from_last_slash (dir ++ 47 ∷ base) ≡ some (47 ∷ base)
unfolding from_last_slash
from_last_slash-append [] base h = rw (from_last_slash, from_last_slash-none base h) refl
from_last_slash-append (d ∷ dir) base h =
    rw (from_last_slash, from_last_slash-append dir base h) refl

-- What is left of a path: all of it, if it has no slash, otherwise its last part with the slash
-- before it.
pub remove_path_from_name_lem :
    (dir base : List ℕ)
    → Slashless base
    → (remove_path_from_name base ≡ base) × (remove_path_from_name (dir ++ 47 ∷ base) ≡ 47 ∷ base)
unfolding remove_path_from_name
remove_path_from_name_lem dir base h = (
  rw (remove_path_from_name, from_last_slash-none base h) refl,
  rw (remove_path_from_name, from_last_slash-append dir base h) refl,
)

-- where a file is written
abbrev pub place : List ℕ → File → List ℕ
place dirname f = dirname ++ 47 ∷ remove_path_from_name f.path_name

-- What is on the disk after the files are written into a directory: each file that none of the
-- later ones is written over, and everything that none of them is written over.
abbrev pub AllWritten : (List ℕ → List ℕ → Bool) → List File → List ℕ → Disk → Disk → Type 0
AllWritten same_file fs dirname before disk =
    ((xs ys : List File) (f : File)
      → fs ≡ xs ++ f ∷ ys
      → ((g : File) → In g ys → same_file (place dirname f) (place dirname g) ≡ false)
      → disk (place dirname f) ≡ some f.contents)
    × ((p : List ℕ)
        → ((g : File) → In g fs → same_file p (place dirname g) ≡ false)
        → disk p ≡ before p)

-- What comes of the files: none is kept without a directory, and all are written into one.
abbrev pub Delivered :
    (List ℕ → List ℕ → Bool) → List File → Option (List ℕ) → Disk → Result → Disk → Type 0
Delivered same_file fs none before result disk =
    (result ≡ (if eqb (length fs) 0 then returns 0 else fails ecanceled)) × (disk ≡ before)
Delivered same_file fs (some dirname) before result disk =
    (result ≡ returns (length fs)) × AllWritten same_file fs dirname before disk

module _ (can_alloc : ℕ → Bool) (mkdir_p : List ℕ → Bool) (can_write : List ℕ → List ℕ → Bool)
    (same_file : List ℕ → List ℕ → Bool) (made : (d : List ℕ) → mkdir_p d ≡ true)
    (written : (p b : List ℕ) → can_write p b ≡ true)
    (same : (p : List ℕ) → same_file p p ≡ true) where
  -- the disk after the files, one after the other
  abbrev over_all : List File → List ℕ → Disk → Disk
  over_all [] dirname disk = disk
  over_all (f ∷ fs) dirname disk =
      over_all fs dirname (write_over mkdir_p can_write same_file (place dirname f) f.contents disk)

  write_all-done :
      (fs : List File) (dirname : List ℕ) (disk : Disk)
      → ((f : File) → In f fs → IsString f.path_name)
      → write_all mkdir_p can_write same_file (map sent fs) dirname disk
        ≡ done (length fs, over_all fs dirname disk)
  unfolding write_all
  write_all-done [] dirname disk str = refl
  write_all-done (f ∷ fs) dirname disk str =
      rw
        (
          write_all,
          c_string-append f.path_name [] (str f (inl refl)),
          written,
          write_all-done fs dirname
              (write_over mkdir_p can_write same_file (place dirname f) f.contents disk)
              (λ g j. str g (inr j)),
        )
        refl

  -- A path that none of the files is written over.
  over_all-kept :
      (fs : List File) (dirname : List ℕ) (disk : Disk) (p : List ℕ)
      → ((g : File) → In g fs → same_file p (place dirname g) ≡ false)
      → over_all fs dirname disk p ≡ disk p
  unfolding write_over
  over_all-kept [] dirname disk p apart = refl
  over_all-kept (f ∷ fs) dirname disk p apart =
      over_all-kept fs dirname _ p (λ g j. apart g (inr j)) ∙ if_false _ _ (apart f (inl refl))

  over_all-last :
      (xs ys : List File) (f : File) (dirname : List ℕ) (disk : Disk)
      → ((g : File) → In g ys → same_file (place dirname f) (place dirname g) ≡ false)
      → over_all (xs ++ f ∷ ys) dirname disk (place dirname f) ≡ some f.contents
  unfolding write_over
  over_all-last [] ys f dirname disk last =
      over_all-kept ys dirname _ (place dirname f) last ∙ if_true _ _ (same (place dirname f))
  over_all-last (x ∷ xs) ys f dirname disk last = over_all-last xs ys f dirname _ last

  over_all-AllWritten :
      (fs : List File) (dirname : List ℕ) (disk : Disk)
      → AllWritten same_file fs dirname disk (over_all fs dirname disk)
  over_all-AllWritten fs dirname disk = (
    (λ xs ys f e last.
        subst⁻¹ (λ gs. over_all gs dirname disk (place dirname f) ≡ some f.contents) e
          (over_all-last xs ys f dirname disk last)),
    (λ p apart. over_all-kept fs dirname disk p apart),
  )

  length-map : (fs : List File) → length (map sent fs) ≡ length fs
  length-map [] = refl
  length-map (f ∷ fs) = ap suc (length-map fs)

  delivers :
      (fs : List File) (dirname : Option (List ℕ)) (disk : Disk)
      → ((f : File) → In f fs → IsString f.path_name)
      → (r : Option ℕ × Disk) × (write_list_of_files_into_dir mkdir_p can_write same_file
            (map sent fs)
            dirname
            disk
          ≡ done r)
        × Delivered same_file fs dirname disk
            (weigh_written (length (map sent fs)) r).0
            (weigh_written (length (map sent fs)) r).1
  unfolding write_list_of_files_into_dir
  delivers [] none disk str = ((some 0, disk), refl, (refl, refl))
  delivers (f ∷ fs) none disk str = ((some 0, disk), refl, (ground arith, ground arith))
  delivers fs (some dirname) disk str = (
    (some (length fs), over_all fs dirname disk),
    rw (made dirname, write_all-done fs dirname disk str) refl,
    (
      ap (λ r. r.0) (all_written (over_all fs dirname disk)),
      subst⁻¹ (AllWritten same_file fs dirname disk)
          (ap (λ r. r.1) (all_written (over_all fs dirname disk)))
          (over_all-AllWritten fs dirname disk),
    ),
  )
    where
      all_written :
          (d : Disk)
          → weigh_written (length (map sent fs)) (some (length fs), d) ≡ (returns (length fs), d)
      all_written d =
          if_false {b = ltb (length fs) (length (map sent fs))} _ _ (ground (arith, length-map fs))

  -- The server sends files, through an output that takes everything, and then its success, and
  -- they arrive in whatever pieces. If their path names are not empty and have no zero bytes, both
  -- ends can hold them, and the client's file system makes every directory and writes every file,
  -- and a path names the same file as itself, then the call returns the number of files; in the
  -- directory, under the last part of its path, each file has its contents, unless a later one of
  -- them is written over it, which two with the same last part are; and every path that none of
  -- them is written over is as it was. Without a directory nothing is written, and the call fails
  -- unless there was no file.
  pub write_files_sent_by_server-Delivered :
      (fs : List File) (sent_before : List ℕ) (input : Input) (back : List ℕ)
      (dirname : Option (List ℕ)) (disk : Disk)
      → ((f : File) → In f fs → IsSendable can_alloc f)
      → ((f : File) → In f fs → IsString f.path_name)
      → Nonempty input.arrivals
      → sent_before ++ stream input.arrivals
        ≡ (send_list_of_files fs true (open_to sent_before)).1.written
          ++ (to_bytes 4 (code_value sa_success) ++ back)
      → (r : Received) × (write_files_sent_by_server mkdir_p can_write same_file can_alloc dirname
            input disk
          ≡ done r)
        × Delivered same_file fs dirname disk r.0 r.1
  unfolding write_files_sent_by_server
  write_files_sent_by_server-Delivered fs sent_before input back dirname disk i str n e =
      let (r, wrote, kept) = delivers fs dirname disk str in
      (
        (
          (weigh_written (length (map sent fs)) r).0,
          (weigh_written (length (map sent fs)) r).1,
          some a.rest,
        ),
        rw (g.found, a.found, success, wrote) refl,
        kept,
      )
    where
      g :
          Receives
            (map sent fs)
            (to_bytes 4 (code_value sa_success) ++ back)
            (receive_files can_alloc (suc (arriving input.arrivals)) input)
      g = (send_list_of_files-Receives can_alloc fs sent_before input _ i n e).1

      a : Arrives (to_bytes 4 (code_value sa_success)) back (arrived (readn 4 g.rest))
      a =
          readn-Arrives 4 g.rest (to_bytes 4 (code_value sa_success)) back
            (omega arith, omega arith) g.nonempty g.follows
            (length-to_bytes 4 (code_value sa_success))

      success : convert_res_to_errno (from_bytes (to_bytes 4 (code_value sa_success))) ≡ none
      success =
          unfold code_value convert_res_to_errno in
          ap (λ n. convert_res_to_errno n) (from_bytes-to_bytes 4 0 (omega arith))
