-- ===== src/Server/CloseFile/Counts.antt =====
-- The counts of the server when `close_client` has ended.
use sol_project.Prelude.{ℕ, ◌≡◌, refl, List, [], ◌∷◌, arith, bytes_key}
use sol_project.Hash.HashMap.{entries}
use sol_project.Server.State.{FileName, File, Server, Outcome, done, ◌>>=◌, dec32, put_back}
use sol_project.Server.FileLocks.{writer_lock, writer_unlock}
use sol_project.Server.CloseFile.{close_client, leave_all, leave}

-- What is done after a bind.
pub done_bind :
    {A B : Type 0} (r : Outcome A) (f : A → Outcome B) (b : B)
    → (r >>= f) ≡ done b
    → (a : A) × (r ≡ done a) × (f a ≡ done b)
done_bind (done a) f b e = (a, refl, e)
done_bind Outcome.blocked f b e = cc
done_bind Outcome.aborted f b e = cc
done_bind Outcome.crashed f b e = cc
done_bind Outcome.diverged f b e = cc

leave_all-curr_state :
    (es : List (FileName × File)) (s : Server) (fd : ℕ) (s' : Server)
    → leave_all es s fd ≡ done s'
    → s'.curr_state ≡ s.curr_state
unfolding leave_all
leave_all-curr_state [] s fd s' e = ground (arith, e)
leave_all-curr_state ((k, f) ∷ es) s fd s' e =
    let (file, _, e') = done_bind (writer_lock f) _ s' e in
    leave_all-curr_state es (put_back s k (writer_unlock (leave file fd))) fd s' e'

-- The counts of connections after a client has left.
pub close_client-curr_state :
    (s : Server) (fd : ℕ) (s' : Server)
    → close_client s fd ≡ done s'
    → s'.curr_state ≡ record s.curr_state { conn = dec32 s.curr_state.conn }
unfolding close_client
close_client-curr_state s fd s' e = leave_all-curr_state (entries s.files) _ fd s' e
