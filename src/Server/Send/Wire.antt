-- ===== src/Server/Send/Wire.antt =====
-- What is sent when `write` takes everything that it is given: the buffers one after the other.
use sol_project.Prelude.{
  ℕ, ◌≡◌, refl, sym, ap, ◌∙◌, true, List, [], ◌∷◌, ◌++◌, append-nil, append_assoc, flatten,
}
use sol_project.Io.{Output, whole, writen, writen_loop}
use sol_project.Server.State.{File}
use sol_project.Server.Requests.{to_bytes}
use sol_project.Server.Send.{send_each, file_buffers, send_single_file, send_list_of_files}

-- an output that takes everything, with what has been written to it
abbrev pub open_to : List ℕ → Output
open_to written = record { acceptances = []; written = written }

writen-whole :
    (buf written : List ℕ) → writen buf (open_to written) ≡ (whole, open_to (written ++ buf))
unfolding writen writen_loop
writen-whole [] written = ap (λ w. (whole, open_to w)) (sym (append-nil written))
writen-whole (b ∷ buf) written = refl

pub send_each-whole :
    (buffers : List (List ℕ)) (written : List ℕ)
    → send_each buffers (open_to written) ≡ (true, open_to (written ++ flatten buffers))
unfolding send_each flatten
send_each-whole [] written = ap (λ w. (true, open_to w)) (sym (append-nil written))
send_each-whole (buf ∷ buffers) written =
    rw
      (
        writen-whole buf written,
        send_each-whole buffers (written ++ buf),
        append_assoc written buf (flatten buffers),
      )
      refl

-- The bytes of a list of files.
abbrev pub wire : List File → List ℕ
wire [] = to_bytes 4 0
wire (file ∷ files) = flatten (file_buffers true file) ++ wire files

pub send_list_of_files-whole :
    (files : List File) (written : List ℕ)
    → send_list_of_files files true (open_to written) ≡ (true, open_to (written ++ wire files))
unfolding send_list_of_files send_single_file flatten
send_list_of_files-whole [] written =
    send_each-whole (to_bytes 4 0 ∷ []) written
    ∙ ap (λ b. (true, open_to (written ++ b))) (append-nil (to_bytes 4 0))
send_list_of_files-whole (file ∷ files) written =
    rw
      (
        send_each-whole (file_buffers true file) written,
        send_list_of_files-whole files (written ++ flatten (file_buffers true file)),
        append_assoc written (flatten (file_buffers true file)) (wire files),
      )
      refl
