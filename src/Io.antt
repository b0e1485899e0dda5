-- ===== src/Io.antt =====
-- src/util/util.c, `readn` and `writen`: transfers of a whole buffer over a descriptor whose system
-- calls move as much as they like, or are interrupted, or fail.
pub mod Laws
use sol_project.Prelude.{
  ℕ, zero, suc, ◌-◌, ◌+◌, ◌%◌, ◌^◌, List, [], ◌∷◌, ◌++◌, length, take, drop, leb, eqb,
  if◌then◌else◌,
}

-- What successive calls of `read` find: some bytes that have arrived (a call takes as many as it
-- asked for, at most, and none at all is the end of the file), or EINTR.
pub data Arrival : Type 0 where
  bytes : List ℕ → Arrival
  interrupted : Arrival

-- What `read` returns when no more arrives: 0 or -1.
pub data Ending : Type 0 where
  closed : Ending
  broken : Ending

pub record Input : Type 0 where
  pub arrivals : List Arrival
  pub ending : Ending

-- The result of `readn` as the callers tell them apart: above 0, 0, or -1.
pub data Read : Type 0 where
  got : List ℕ → Input → Read
  eof : Read
  failed : Read

-- `return size`, a `size_t` as an `int`: 0 and -1 are read by the callers as the end and an error.
unfoldable pub as_int : ℕ → List ℕ → Input → Read
as_int size buf rest =
    if eqb (size % 2 ^ 32) 0
    then eof
    else if eqb (size % 2 ^ 32) (2 ^ 32 - 1)
    then failed
    else got buf rest

-- The loop, with the bytes already in the buffer; `left` counts down.
unfoldable pub readn_loop : ℕ → ℕ → List ℕ → List Arrival → Ending → Read
unfolding as_int
readn_loop size zero buf arrivals ending =
    as_int size buf (record { arrivals = arrivals; ending = ending })
readn_loop size (suc left) buf [] closed = eof
readn_loop size (suc left) buf [] broken = failed
readn_loop size (suc left) buf (interrupted ∷ rest) ending =
    readn_loop size (suc left) buf rest ending
readn_loop size (suc left) buf (bytes [] ∷ rest) ending = eof
readn_loop size (suc left) buf (bytes (b ∷ bs) ∷ rest) ending =
    let chunk : List ℕ = b ∷ bs in
    let next = readn_loop size (suc left - length chunk) (buf ++ chunk) rest ending in
    if leb (length chunk) (suc left)
    then next
    else as_int size (buf ++ take (suc left) chunk)
        (record { arrivals = bytes (drop (suc left) chunk) ∷ rest; ending = ending })

-- `readn(fd, buf, size)`
unfoldable pub readn : ℕ → Input → Read
unfolding readn_loop
readn size input = readn_loop size size [] input.arrivals input.ending

-- What successive calls of `write` do: take at most so many bytes, or return EINTR or -1.
pub data Acceptance : Type 0 where
  takes : ℕ → Acceptance
  interrupts : Acceptance
  refuses : Acceptance

-- With no acceptance left, `write` takes all that it is given.
pub record Output : Type 0 where
  pub acceptances : List Acceptance
  pub written : List ℕ

-- The result of `writen`: 1, 0 when `write` returned 0, and -1.
pub data Write : Type 0 where
  whole : Write
  stopped : Write
  error : Write

unfoldable pub writen_loop : List ℕ → List Acceptance → List ℕ → Write × Output
writen_loop [] acceptances written =
    (whole, record { acceptances = acceptances; written = written })
writen_loop (b ∷ bs) [] written = (whole, record { acceptances = []; written = written ++ b ∷ bs })
writen_loop (b ∷ bs) (interrupts ∷ rest) written = writen_loop (b ∷ bs) rest written
writen_loop (b ∷ bs) (refuses ∷ rest) written =
    (error, record { acceptances = rest; written = written })
writen_loop (b ∷ bs) (takes zero ∷ rest) written =
    (stopped, record { acceptances = rest; written = written })
writen_loop (b ∷ bs) (takes (suc n) ∷ rest) written =
    writen_loop (drop n bs) rest (written ++ take (suc n) (b ∷ bs))

-- `writen(fd, buf, size)`
unfoldable pub writen : List ℕ → Output → Write × Output
unfolding writen_loop
writen buf out = writen_loop buf out.acceptances out.written
