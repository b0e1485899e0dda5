-- ===== src/Server/Invariant/Walk.antt =====
-- A walk over the entries of the map that changes every file it meets in the same way.
use sol_project.Prelude.{
  ◌≤◌, ◌≡◌, refl, sym, ap, ◌∙◌, true, Option, none, some, List, [], ◌∷◌, arith, bytes_key,
  bytes-same_iff, same_refl, ◌==◌, if_true, if_false, inl, inr, Bool-cases, weigh,
}
use sol_project.Hash.Chain.{find, keyed, find_absent}
use sol_project.Hash.HashMap
use sol_project.Server.State.{FileName, File, Server}
use sol_project.Server.Invariant.{IsConsistent}
use sol_project.Server.Invariant.Preserve.{Holds}

-- The changed file, if the walk meets it, and the file as it is otherwise.
abbrev pub walked : (File → File) → Option File → Option File → Option File
walked change (some met) kept = some (change met)
walked change none kept = kept

-- The entries are those of the map, each key at most once.
pub record Entries (es : List (FileName × File)) (s : Server) : Type 0 where
  pub unique : (q : FileName) → weigh (keyed q) es ≤ 1
  pub there : (q : FileName) (f : File) → find q es ≡ some f → HashMap.get s.files q ≡ some f

module _ (change : File → File) where
  -- What a walk over `es` leaves of `s`.
  pub record Walked (es : List (FileName × File)) (s s' : Server) : Type 0 where
    pub consistent : IsConsistent s'
    pub finds :
        (q : FileName) → HashMap.get s'.files q ≡ walked change (find q es) (HashMap.get s.files q)

  pub Walked-nil : (s : Server) → IsConsistent s → Walked [] s s
  unfolding find
  Walked-nil s i = record { consistent = i; finds = λ q. refl }

  module _ (k : FileName) (f : File) (es : List (FileName × File)) (s s1 : Server)
      (e : Entries ((k, f) ∷ es) s) (now : Holds s k (change f) s1) where
    pub Entries-head : HashMap.get s.files k ≡ some f
    unfolding find
    Entries-head = e.there k f (if_true _ _ (same_refl {K = FileName} k))

    -- A key that stands at the head stands nowhere else.
    gone : (q : FileName) → (q == k) ≡ true → find q es ≡ none
    gone q t =
        rw ((bytes-same_iff q k).0 t)
          (find_absent k es (ground (arith, e.unique k, same_refl {K = FileName} k)))

    pub Entries-tail : Entries es s1
    unfolding find
    Entries-tail = record {
      unique = λ q. ground (arith, e.unique q);
      there = λ q g x. elim (Bool-cases (q == k)) [
        | inl t ↦ ground (arith, gone q t, x)
        | inr t ↦ now q ∙ if_false _ _ t ∙ e.there q g (if_false _ _ t ∙ x)
      ];
    }

    pub Walked-cons : (s' : Server) → Walked es s1 s' → Walked ((k, f) ∷ es) s s'
    unfolding find
    Walked-cons s' h = record {
      consistent = h.consistent;
      finds = λ q. elim (Bool-cases (q == k)) [
        | inl t ↦
            h.finds q
            ∙ ap (λ o. walked change o (HashMap.get s1.files q)) (gone q t)
            ∙ now q
            ∙ if_true _ _ t
            ∙ ap (λ o. walked change o (HashMap.get s.files q)) (sym (if_true _ _ t))
        | inr t ↦
            h.finds q
            ∙ ap (walked change (find q es)) (now q ∙ if_false _ _ t)
            ∙ ap (λ o. walked change o (HashMap.get s.files q)) (sym (if_false _ _ t))
      ];
    }
