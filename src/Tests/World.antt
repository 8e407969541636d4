-- ===== src/Tests/World.antt =====
-- A world in which the definitions run: what the wire takes from other crates, as concrete
-- functions that have the documented laws.
use native.Mathlib.Decide.{ℕ_discrete}
use darkbio_wire_rs.Common.{
  refl, ℕ, suc, ◌+◌, ◌≤◌, ◌≡◌, subst, ◌≢◌, ap, Option, none, some, List, [], ◌∷◌, ◌++◌, length,
  get_elem?, take, All, arith, ◌==◌, if◌then◌else◌, eq→==, ne→==,
}
use darkbio_wire_rs.Error.{value}
use darkbio_wire_rs.Io.{Writer}
use darkbio_wire_rs.Io.Laws.{MemchrLaws, Sink}

-- The position one further.
abbrev next : Option ℕ → Option ℕ
next none = none
next (some i) = some (suc i)

-- `memchr`, byte by byte.
abbrev pub index : ℕ → List ℕ → Option ℕ
index x [] = none
index x (y ∷ ys) = let rest = index x ys in if y == x then some 0 else next rest

-- What a search has found.
abbrev Finds : ℕ → List ℕ → Option ℕ → Type 0
Finds x xs none = All (λ b. b ≢ x) xs
Finds x xs (some i) = (i + 1 ≤ length xs) × (get_elem? xs i ≡ some x) × All (λ b. b ≢ x) (take i xs)

next-Finds :
    (x y : ℕ) (ys : List ℕ) (o : Option ℕ) → y ≢ x → Finds x ys o → Finds x (y ∷ ys) (next o)
next-Finds x y ys none ne h = (ne, h)
next-Finds x y ys (some i) ne (lt, hit, before) = (omega arith, hit, (ne, before))

index-Finds : (x : ℕ) (xs : List ℕ) → Finds x xs (index x xs)
index-Finds x [] = tt
index-Finds x (y ∷ ys) = elim (ℕ_discrete y x) [
  | yes e ↦ rw (eq→== y x e) (omega arith, ap some e, tt)
  | no ne ↦ rw (ne→== y x ne) (next-Finds x y ys (index x ys) ne (index-Finds x ys))
]

pub index-MemchrLaws : MemchrLaws index
index-MemchrLaws = record {
  found = λ x xs i e.
      let (lt, hit, before) = subst (Finds x xs) e (index-Finds x xs) in (omega arith, hit, before);
  missing = λ x xs e. subst (Finds x xs) e (index-Finds x xs);
}

-- A writer that keeps what was written.
abbrev pub recorder : Writer (List ℕ)
recorder = record { write_all = λ w bytes. (value tt, w ++ bytes); flush = λ w. (value tt, w) }

abbrev pub recorder_sink : Sink recorder
recorder_sink = record {
  written = λ w. w;
  takes = λ w bytes. (refl, refl);
  flushes = λ w. (refl, refl);
}
