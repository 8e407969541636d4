-- ===== src/Error/Total.antt =====
-- Operations that end with a result: no panic, and the fuel is enough.
use darkbio_wire_rs.Common.{Bool, true, false, if◌then◌else◌}
use darkbio_wire_rs.Error.{
  fail, Error, Result, value, error, Outcome, ok, err, panic, exhausted, Op, pure, or_fail,
  and_then, ◌>>=◌,
}

module _ {S : Type 0} (I : S → Type 0) where
  abbrev pub Finishes : {A : Type 0} → (A → Type 0) → Outcome A → S → Type 0
  Finishes Q (ok a) s = Q a × I s
  Finishes Q (err _) s = I s
  Finishes Q panic s = ⊥
  Finishes Q exhausted s = ⊥

  -- From a state with `I`, a result with `Q`, or an error, and a state with `I`.
  pub record Total {A : Type 0} (Q : A → Type 0) (m : Op S A) : Type 0 where
    pub finishes : (s : S) → I s → Finishes Q (m s).0 (m s).1

  pub then-Finishes :
      {A B : Type 0} {Q : A → Type 0} (P : B → Type 0) (k : A → Op S B) (p : Outcome A × S)
      → Finishes Q p.0 p.1
      → ((a : A) → Q a → Total P (k a))
      → Finishes P (and_then k p).0 (and_then k p).1
  then-Finishes P k (ok a, s) (q, e) next = (next a q).finishes s e
  then-Finishes P k (err x, s) e next = e
  then-Finishes P k (panic, s) e next = absurd e
  then-Finishes P k (exhausted, s) e next = absurd e

pub mono-Finishes :
    {S A : Type 0} (Q : A → Type 0) (I K : S → Type 0) (r : Outcome A) (s : S)
    → (I s → K s)
    → Finishes I Q r s
    → Finishes K Q r s
mono-Finishes Q I K (ok a) s f (q, e) = (q, f e)
mono-Finishes Q I K (err x) s f e = f e
mono-Finishes Q I K panic s f e = e
mono-Finishes Q I K exhausted s f e = e

module _ {S : Type 0} {I : S → Type 0} where
  pub then-Total :
      {A B : Type 0} {Q : A → Type 0} {P : B → Type 0} {m : Op S A} {k : A → Op S B}
      → Total I Q m
      → ((a : A) → Q a → Total I P (k a))
      → Total I P (m >>= k)
  then-Total {A} {B} {Q} {P} {m} {k} first next = record {
    finishes = λ s e. then-Finishes I P k (m s) (first.finishes s e) next;
  }

  pub or_fail-Total :
      {E A : Type 0} (f : E → Error) (r : Result E A) → Total I (λ a. Unit {0}) (or_fail f r)
  or_fail-Total f (value a) = record { finishes = λ s e. (tt, e) }
  or_fail-Total f (error x) = record { finishes = λ s e. e }

  pub pure-Total : {A : Type 0} {Q : A → Type 0} (a : A) → Q a → Total I Q (pure a)
  pure-Total a q = record { finishes = λ s e. (q, e) }

  pub fail-Total : {A : Type 0} {Q : A → Type 0} (x : Error) → Total I Q (fail x)
  fail-Total x = record { finishes = λ s e. e }

  pub if-Total :
      {A : Type 0} {Q : A → Type 0} {m k : Op S A} (b : Bool)
      → Total I Q m
      → Total I Q k
      → Total I Q (if b then m else k)
  if-Total true p q = p
  if-Total false p q = q

  pub elim-Total :
      {A : Type 0} {Q : A → Type 0} {m k : Op S A} (b : Bool)
      → Total I Q m
      → Total I Q k
      → Total I Q (elim b [ true ↦ m | false ↦ k ])
  elim-Total true p q = p
  elim-Total false p q = q
