-- ===== src/Api/Files/Laws.antt =====
-- The files that the server sends are the files that the client receives.
use sol_project.Prelude.{
  ℕ, zero, suc, ◌+◌, ◌-◌, ◌%◌, ◌^◌, ◌<◌, ◌≡◌, refl, sym, ap, ◌∙◌, subst⁻¹, Bool, true, false,
  Option, some, List, [], ◌∷◌, ◌++◌, map, length, arith, append_assoc, length-append, eqb,
  if◌then◌else◌, if_true, if_false, Bool-cases, inl, inr, flatten, In,
}
use sol_project.Io.{Input, Output, readn}
use sol_project.Io.Laws.{stream, Nonempty}
use sol_project.Server.State.{File, Outcome, done, ◌>>=◌}
use sol_project.Server.Requests.{to_bytes, from_bytes, size_of_int}
use sol_project.Server.Requests.Laws.{length-to_bytes, from_bytes-to_bytes, size_of_int_lem}
use sol_project.Server.Send.{file_buffers, send_list_of_files}
use sol_project.Server.Send.Wire.{open_to, wire, send_list_of_files-whole}
use sol_project.Api.State.{arrived}
use sol_project.Api.Files.{
  SentFile, Arriving, then_read, fill, receive_file, receive_files, go_on, put_before, arriving,
}
use sol_project.Api.Arrivals.{Arrives, readn-Arrives, arriving-stream}

-- A file that both ends can hold, with a path name that is not empty.
pub record IsSendable (can_alloc : ℕ → Bool) (f : File) : Type 0 where
  pub named : 0 < length f.path_name
  pub short : length f.path_name + 1 < 2 ^ 31
  pub path_room : can_alloc (length f.path_name + 1) ≡ true
  pub sized : f.size ≡ length f.contents
  pub small : f.size < 2 ^ 32 - 1
  pub room : can_alloc f.size ≡ true

-- as the client keeps it
abbrev pub sent : File → SentFile
sent f = (f.path_name ++ 0 ∷ [], f.contents)

-- What has been received, with what follows it.
pub record Receives {A : Type 0} (a : A) (back : List ℕ) (r : Outcome (Option (A × Input)))
    : Type 0 where
  pub rest : Input
  pub found : r ≡ done (some (a, rest))
  pub follows : stream rest.arrivals ≡ back
  pub nonempty : Nonempty rest.arrivals

then_read-Receives :
    {A : Type 0} {back' : List ℕ} (front back : List ℕ) (a : A) (r : Option (List ℕ × Input))
    (next : List ℕ → Input → Outcome (Option (A × Input)))
    → Arrives front back' r
    → ((rest : Input)
        → stream rest.arrivals ≡ back'
        → Nonempty rest.arrivals
        → Receives a back (next front rest))
    → Receives a back (then_read r next)
then_read-Receives front back a r next h k =
    subst⁻¹ (λ r'. Receives a back (then_read r' next)) h.found (k h.rest h.follows h.nonempty)

append_cancel : (xs ys zs : List ℕ) → xs ++ ys ≡ xs ++ zs → ys ≡ zs
append_cancel [] ys zs e = e
append_cancel (x ∷ xs) ys zs e = append_cancel xs ys zs (ground (arith, e))

empty : (xs : List ℕ) → length xs ≡ 0 → xs ≡ []
empty [] h = refl
empty (x ∷ xs) h = absurd (omega arith)

module _ (can_alloc : ℕ → Bool) where
  fill-Receives :
      {back' : List ℕ} (size : ℕ) (input : Input) (front back : List ℕ) (a : SentFile)
      (next : List ℕ → Input → Arriving)
      → can_alloc size ≡ true
      → Arrives front back' (arrived (readn size input))
      → ((rest : Input)
          → stream rest.arrivals ≡ back'
          → Nonempty rest.arrivals
          → Receives a back (next front rest))
      → Receives a back (fill can_alloc size input next)
  fill-Receives size input front back a next room h k =
      subst⁻¹ (Receives a back) (if_true _ _ room)
        (then_read-Receives front back a (arrived (readn size input)) next h k)

  contents_part : File → List ℕ
  contents_part f = flatten (if eqb f.size 0 then [] else f.contents ∷ [])

  receive_file-Receives :
      (f : File) (input : Input) (back : List ℕ)
      → IsSendable can_alloc f
      → Nonempty input.arrivals
      → stream input.arrivals
        ≡ (f.path_name ++ 0 ∷ []) ++ (to_bytes 8 f.size ++ (contents_part f ++ back))
      → Receives (sent f) back (receive_file can_alloc (length f.path_name) input)
  unfolding receive_file contents_part flatten
  receive_file-Receives f input back i n e =
      subst⁻¹ (λ size. Receives (sent f) back (fill can_alloc size input next)) size
        (fill-Receives {back' = to_bytes 8 f.size ++ (contents_part f ++ back)}
          (length f.path_name + 1) input (f.path_name ++ 0 ∷ []) back (sent f) next i.path_room
          (readn-Arrives _ input (f.path_name ++ 0 ∷ []) _
            (omega (arith, i.short), omega (arith, i.short)) n e
            (length-append f.path_name (0 ∷ [])))
          λ rest s m.
            then_read-Receives (to_bytes 8 f.size) back (sent f) (arrived (readn 8 rest))
              (next' (f.path_name ++ 0 ∷ []))
              (readn-Arrives 8 rest (to_bytes 8 f.size) (contents_part f ++ back)
                (omega arith, omega arith) m s (length-to_bytes 8 f.size))
              (λ rest' s' m'.
                subst⁻¹ (λ k. Receives (sent f) back (next'' (f.path_name ++ 0 ∷ []) k rest'))
                  (from_bytes-to_bytes 8 f.size (omega (arith, i.small))) (contents rest' s' m')))
    where
      next'' : List ℕ → ℕ → Input → Arriving
      next'' path k rest' =
          if eqb k 0
          then done (some ((path, []), rest'))
          else fill can_alloc k rest' (λ buf rest''. done (some ((path, buf), rest'')))

      next' : List ℕ → List ℕ → Input → Arriving
      next' path size rest' = next'' path (from_bytes size) rest'

      next : List ℕ → Input → Arriving
      next path rest = then_read (arrived (readn 8 rest)) (next' path)

      size : size_of_int ((length f.path_name + 1) % 2 ^ 32) ≡ length f.path_name + 1
      size = size_of_int_lem (length f.path_name + 1) i.short

      contents :
          (rest' : Input)
          → stream rest'.arrivals ≡ contents_part f ++ back
          → Nonempty rest'.arrivals
          → Receives (sent f) back (next'' (f.path_name ++ 0 ∷ []) f.size rest')
      contents rest' s' m' = elim (Bool-cases (eqb f.size 0)) [
        | inl e' ↦ subst⁻¹ (Receives (sent f) back) (if_true _ _ e') (record {
          rest = rest';
          found =
              ap (λ b. done (some ((f.path_name ++ 0 ∷ [], b), rest')))
                (sym (empty f.contents (ground (arith, i.sized, e'))));
          follows = s' ∙ ap (λ l. flatten l ++ back) (if_true _ _ e');
          nonempty = m';
        })
        | inr e' ↦ subst⁻¹ (Receives (sent f) back) (if_false _ _ e') (
            fill-Receives f.size rest' f.contents back (sent f) _ i.room
              (readn-Arrives f.size rest' f.contents back
                (ground (arith, i.small, e'), ground (arith, i.small, e')) m'
                (s'
                  ∙ ap (λ l. flatten l ++ back) (if_false _ _ e')
                  ∙ append_assoc f.contents [] back)
                (sym i.sized))
              (λ rest'' s'' m''. record {
                rest = rest'';
                found = refl;
                follows = s'';
                nonempty = m'';
              }))
      ]

  -- The list as the server sends it is the list that the client receives.
  receive_files-Receives :
      (fs : List File) (fuel : ℕ) (input : Input) (back : List ℕ)
      → ((f : File) → In f fs → IsSendable can_alloc f)
      → length fs < fuel
      → Nonempty input.arrivals
      → stream input.arrivals ≡ wire fs ++ back
      → Receives (map sent fs) back (receive_files can_alloc fuel input)
  unfolding receive_files flatten contents_part file_buffers
  receive_files-Receives fs zero input back i more n e = absurd (omega (arith, more))
  receive_files-Receives [] (suc fuel) input back i more n e =
      then_read-Receives (to_bytes 4 0) back [] (arrived (readn 4 input)) _
        (readn-Arrives 4 input (to_bytes 4 0) back (omega arith, omega arith) n e
          (length-to_bytes 4 0))
        λ rest s m.
          rw (from_bytes-to_bytes 4 0 (omega arith))
            (record { rest = rest; found = refl; follows = s; nonempty = m })
  receive_files-Receives (f ∷ fs) (suc fuel) input back i more n e =
      then_read-Receives (to_bytes 4 (length f.path_name)) back (map sent (f ∷ fs))
        (arrived (readn 4 input)) _
        (readn-Arrives 4 input (to_bytes 4 (length f.path_name)) (after ++ (wire fs ++ back))
          (omega arith, omega arith) n (e ∙ joined) (length-to_bytes 4 (length f.path_name)))
        λ rest s m.
          let one : Receives (sent f) (wire fs ++ back)
              (receive_file can_alloc (length f.path_name) rest) =
            receive_file-Receives f rest (wire fs ++ back) h m (s ∙ split) in
          let others =
            receive_files-Receives fs fuel one.rest back (λ g j. i g (inr j)) (omega (arith, more))
              one.nonempty one.follows in
          subst⁻¹
            (λ k. Receives (map sent (f ∷ fs)) back (elim (eqb k 0) [
              | true ↦ done (some ([], rest))
              | false ↦ receive_file can_alloc k rest >>= λ o. go_on can_alloc o λ file rest'.
                  receive_files can_alloc fuel rest' >>= λ more'.
                  done (put_before can_alloc file more')
            ]))
            (from_bytes-to_bytes 4 (length f.path_name) short)
            (rw (nonzero, one.found, others.found)
              (record {
                rest = others.rest;
                found = refl;
                follows = others.follows;
                nonempty = others.nonempty;
              }))
    where
      h : IsSendable can_alloc f
      h = i f (inl refl)

      short : length f.path_name < 256 ^ 4
      short = omega (arith, h.short)

      nonzero : eqb (length f.path_name) 0 ≡ false
      nonzero = ground (arith, h.named)

      after : List ℕ
      after = (f.path_name ++ 0 ∷ []) ++ (to_bytes 8 f.size ++ contents_part f)

      joined :
          wire (f ∷ fs) ++ back ≡ to_bytes 4 (length f.path_name) ++ (after ++ (wire fs ++ back))
      joined =
          append_assoc (flatten (file_buffers true f)) (wire fs) back
          ∙ append_assoc (to_bytes 4 (length f.path_name)) after (wire fs ++ back)

      split :
          after ++ (wire fs ++ back)
          ≡ (f.path_name ++ 0 ∷ []) ++ (to_bytes 8 f.size ++ (contents_part f ++ (wire fs ++ back)))
      split =
          append_assoc (f.path_name ++ 0 ∷ []) (to_bytes 8 f.size ++ contents_part f)
            (wire fs ++ back)
          ∙ ap (λ l. (f.path_name ++ 0 ∷ []) ++ l)
              (append_assoc (to_bytes 8 f.size) (contents_part f) (wire fs ++ back))

  wire-longer : (fs : List File) → length fs < length (wire fs)
  unfolding flatten file_buffers
  wire-longer [] = omega (arith, length-to_bytes 4 0)
  wire-longer (f ∷ fs) = omega (
    arith,
    length-append (flatten (file_buffers true f)) (wire fs),
    length-append (to_bytes 4 (length f.path_name)) (
        flatten (
          (f.path_name ++ 0 ∷ [])
          ∷ to_bytes 8 f.size
          ∷ (if eqb f.size 0 then [] else f.contents ∷ []))),
    length-to_bytes 4 (length f.path_name),
    wire-longer fs,
  )

  -- The files that the server sends, through an output that takes everything, are the files that
  -- the client receives, if their path names are not empty, both ends can hold them, and they
  -- arrive in whatever pieces: send_list_of_files succeeds, and the loop of
  -- write_files_sent_by_server ends within its fuel with their path names and contents, in order,
  -- and leaves what follows.
  pub send_list_of_files-Receives :
      (fs : List File) (written : List ℕ) (input : Input) (back : List ℕ)
      → ((f : File) → In f fs → IsSendable can_alloc f)
      → Nonempty input.arrivals
      → written ++ stream input.arrivals
        ≡ (send_list_of_files fs true (open_to written)).1.written ++ back
      → ((send_list_of_files fs true (open_to written)).0 ≡ true)
        × Receives
            (map sent fs)
            back
            (receive_files can_alloc (suc (arriving input.arrivals)) input)
  send_list_of_files-Receives fs written input back i n e = (
    ap (λ r. r.0) (send_list_of_files-whole fs written),
    receive_files-Receives fs (suc (arriving input.arrivals)) input back i
        (omega (
          arith,
          arriving-stream input.arrivals,
          ap length same,
          length-append (wire fs) back,
          wire-longer fs,
        ))
        n same,
  )
    where
      same : stream input.arrivals ≡ wire fs ++ back
      same = append_cancel written _ _ (
          e
          ∙ ap (λ (r : Bool × Output). r.1.written ++ back) (send_list_of_files-whole fs written)
          ∙ append_assoc written (wire fs) back)
