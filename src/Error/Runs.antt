-- ===== src/Error/Runs.antt =====
-- Facts about how operations end: what holds of the result, and what holds of the state however they
-- end.
use darkbio_wire_rs.Common.{◌≡◌, refl, Option, none, some, Bool, true, false, if◌then◌else◌}
use darkbio_wire_rs.Error.{
  Error, Result, value, error, Outcome, ok, err, panic, exhausted, Op, pure, fail, or_fail,
  or_panic, and_then, ◌>>=◌,
}

module _ {S : Type 0} (I : S → Type 0) where
  abbrev pub Ends : {A : Type 0} → (A → Type 0) → Outcome A → S → Type 0
  Ends Q (ok a) s = Q a × I s
  Ends Q (err _) s = I s
  Ends Q panic s = I s
  Ends Q exhausted s = I s

  -- From a state with `I`, `I` holds again afterwards, and `Q` of the result.
  pub record Achieves {A : Type 0} (Q : A → Type 0) (m : Op S A) : Type 0 where
    pub ends : (s : S) → I s → Ends Q (m s).0 (m s).1

  pub any-Ends : {A : Type 0} (r : Outcome A) (s : S) → I s → Ends (λ a. r ≡ ok a) r s
  any-Ends (ok a) s e = (refl, e)
  any-Ends (err x) s e = e
  any-Ends panic s e = e
  any-Ends exhausted s e = e

  pub or_panic-Ends :
      {A : Type 0} (o : Option A) (s : S)
      → I s
      → Ends (λ a. Unit {0}) (or_panic o s).0 (or_panic o s).1
  or_panic-Ends none s e = e
  or_panic-Ends (some a) s e = (tt, e)

  pub weaken-Ends :
      {A : Type 0} {Q P : A → Type 0} (r : Outcome A) (s : S)
      → ((a : A) → Q a → P a)
      → Ends Q r s
      → Ends P r s
  weaken-Ends (ok a) s f (q, e) = (f a q, e)
  weaken-Ends (err x) s f e = e
  weaken-Ends panic s f e = e
  weaken-Ends exhausted s f e = e

module _ {S : Type 0} {I : S → Type 0} where
  then-Ends :
      {A B : Type 0} {Q : A → Type 0} (P : B → Type 0) (k : A → Op S B) (p : Outcome A × S)
      → Ends I Q p.0 p.1
      → ((a : A) → Q a → Achieves I P (k a))
      → Ends I P (and_then k p).0 (and_then k p).1
  then-Ends P k (ok a, s) (q, e) next = (next a q).ends s e
  then-Ends P k (err x, s) e next = e
  then-Ends P k (panic, s) e next = e
  then-Ends P k (exhausted, s) e next = e

  pub then-Achieves :
      {A B : Type 0} {Q : A → Type 0} {P : B → Type 0} {m : Op S A} {k : A → Op S B}
      → Achieves I Q m
      → ((a : A) → Q a → Achieves I P (k a))
      → Achieves I P (m >>= k)
  then-Achieves {A} {B} {Q} {P} {m} {k} first next = record {
    ends = λ s e. then-Ends P k (m s) (first.ends s e) next;
  }

  pub or_fail-Achieves :
      {E A : Type 0} (f : E → Error) (r : Result E A) → Achieves I (λ a. r ≡ value a) (or_fail f r)
  or_fail-Achieves f (value a) = record { ends = λ s e. (refl, e) }
  or_fail-Achieves f (error x) = record { ends = λ s e. e }

  pub pure-Achieves : {A : Type 0} {Q : A → Type 0} (a : A) → Q a → Achieves I Q (pure a)
  pure-Achieves a q = record { ends = λ s e. (q, e) }

  pub fail-Achieves : {A : Type 0} {Q : A → Type 0} (x : Error) → Achieves I Q (fail x)
  fail-Achieves x = record { ends = λ s e. e }

  pub result-Achieves : {A : Type 0} (r : Outcome A) → Achieves I (λ a. r ≡ ok a) (λ s. (r, s))
  result-Achieves r = record { ends = λ s e. any-Ends I r s e }

  pub if-Achieves :
      {A : Type 0} {Q : A → Type 0} {m k : Op S A} (b : Bool)
      → Achieves I Q m
      → Achieves I Q k
      → Achieves I Q (if b then m else k)
  if-Achieves true p q = p
  if-Achieves false p q = q

  pub elim-Achieves :
      {A B : Type 0} {Q : A → Type 0} {m : Op S A} {k : B → Op S A} (o : Option B)
      → Achieves I Q m
      → ((b : B) → Achieves I Q (k b))
      → Achieves I Q (elim o [ none ↦ m | some b ↦ k b ])
  elim-Achieves none p q = p
  elim-Achieves (some b) p q = q b

  pub weaken-Achieves :
      {A : Type 0} {Q P : A → Type 0} {m : Op S A}
      → ((a : A) → Q a → P a)
      → Achieves I Q m
      → Achieves I P m
  weaken-Achieves {A} {Q} {P} {m} f p = record {
    ends = λ s e. weaken-Ends I (m s).0 (m s).1 f (p.ends s e);
  }
