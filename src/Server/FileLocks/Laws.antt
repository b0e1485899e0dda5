-- ===== src/Server/FileLocks/Laws.antt =====
-- What a thread meets at a file that no writer holds.
use sol_project.Prelude.{◌<◌, ◌≡◌, ◌⊎◌, sym, ap, inl, inr, arith, Bool-cases, ltb}
use sol_project.Server.State.{File, Outcome, done, blocked, Ends, inc32, ◌>>=◌}
use sol_project.Server.FileLocks.{writer_lock, writer_unlock}

-- The file under its writer lock.
abbrev pub written_by_one : File → File
written_by_one f = record f { n_writers = 1 }

-- A writer waits exactly for the readers.
pub writer_lock_cases :
    (f : File)
    → f.n_writers ≡ 0
    → ((0 < f.n_readers) × (writer_lock f ≡ blocked))
      ⊎ ((f.n_readers ≡ 0) × (writer_lock f ≡ done (written_by_one f)))
unfolding writer_lock
writer_lock_cases f idle = elim (Bool-cases (ltb 0 f.n_readers)) [
  | inl t ↦ inl (ground arith, ground arith)
  | inr t ↦ inr (ground arith, let e : inc32 f.n_writers ≡ 1 = omega arith in ground (arith, e))
]

-- Unlocking undoes locking.
pub writer_unlock-lock : (f : File) → f.n_writers ≡ 0 → writer_unlock (written_by_one f) ≡ f
unfolding writer_unlock
writer_unlock-lock f idle = ap (λ n. record f { n_writers = n }) (sym idle)

-- A step under a writer lock: the thread waits for a reader, or goes on with the file locked.
pub writer_lock-Ends {ℓ} :
    {A : Type ℓ} (B : Type 0) (P : A → Type 0) (f : File) (next : File → Outcome A)
    → f.n_writers ≡ 0
    → (0 < f.n_readers → B)
    → Ends B (next (written_by_one f)) P
    → Ends B (writer_lock f >>= next) P
writer_lock-Ends B P f next idle busy h = elim (writer_lock_cases f idle) [
  | inl (read, e) ↦ rw e (busy read)
  | inr (_, e) ↦ rw e h
]
