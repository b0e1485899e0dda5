-- ===== src/Api/Arrivals.antt =====
-- What the client's reads find when the stream holds it.
use sol_project.Prelude.{
  ℕ, ◌≡◌, refl, ap, List, [], ◌∷◌, ◌++◌, length, arith, Option, some, length-append,
}
use sol_project.Io.{Input, Arrival, bytes, interrupted, Read, got, eof, failed, readn}
use sol_project.Io.Laws.{stream, Nonempty, IsCounted, Reads, readn-Reads}
use sol_project.Server.Requests.{Received, received, gave_up, exits, faults}
use sol_project.Server.Requests.Laws.{Gets}
use sol_project.Api.State.{arrived}
use sol_project.Api.Files.{arriving}

-- The front has arrived, and the input goes on with `back`.
pub record Arrives {A : Type 0} (front : A) (back : List ℕ) (r : Option (A × Input)) : Type 0 where
  pub rest : Input
  pub found : r ≡ some (front, rest)
  pub follows : stream rest.arrivals ≡ back
  pub nonempty : Nonempty rest.arrivals

arrived-Arrives :
    (front back : List ℕ) (r : Read) → Reads front back r → Arrives front back (arrived r)
arrived-Arrives front back (got b rest) (e, s, n) = record {
  rest = rest;
  found = ap (λ x. some (x, rest)) e;
  follows = s;
  nonempty = n;
}
arrived-Arrives front back eof h = absurd h
arrived-Arrives front back failed h = absurd h

pub readn-Arrives :
    (size : ℕ) (input : Input) (front back : List ℕ)
    → IsCounted size
    → Nonempty input.arrivals
    → stream input.arrivals ≡ front ++ back
    → length front ≡ size
    → Arrives front back (arrived (readn size input))
readn-Arrives size input front back c n e l =
    arrived-Arrives front back (readn size input) (readn-Reads size input front back c n e l)

-- A handler's part of a request, when it is there.
pub record Got {A : Type 0} (a : A) (back : List ℕ) (r : Received A) : Type 0 where
  pub rest : Input
  pub found : r ≡ received a rest
  pub follows : stream rest.arrivals ≡ back
  pub nonempty : Nonempty rest.arrivals

pub Gets-Got : {A : Type 0} (a : A) (back : List ℕ) (r : Received A) → Gets a back r → Got a back r
Gets-Got a back (received b rest) (e, s, n) = record {
  rest = rest;
  found = ap (λ x. received x rest) e;
  follows = s;
  nonempty = n;
}
Gets-Got a back (gave_up code) h = absurd h
Gets-Got a back exits h = absurd h
Gets-Got a back faults h = absurd h

pub arriving-stream : (arrivals : List Arrival) → arriving arrivals ≡ length (stream arrivals)
arriving-stream [] = refl
arriving-stream (bytes b ∷ rest) =
    omega (arith, arriving-stream rest, length-append b (stream rest))
arriving-stream (interrupted ∷ rest) = arriving-stream rest
