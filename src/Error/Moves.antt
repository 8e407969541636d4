-- ===== src/Error/Moves.antt =====
-- How operations move the state, however they end.
use darkbio_wire_rs.Common.{Option, none, some, Bool, true, false, if◌then◌else◌}
use darkbio_wire_rs.Error.{
  Error, Result, value, error, Outcome, ok, err, panic, exhausted, Op, pure, fail, or_fail,
  or_panic, and_then, ◌>>=◌,
}

pub record IsOrder {S : Type 0} (T : S → S → Type 0) : Type 0 where
  pub same : (s : S) → T s s
  pub chain : (s t u : S) → T s t → T t u → T s u

-- The state afterwards is related to the state before.
pub record Moves {S A : Type 0} (T : S → S → Type 0) (m : Op S A) : Type 0 where
  pub moves : (s : S) → T s (m s).1

module _ {S : Type 0} {T : S → S → Type 0} (order : IsOrder T) where
  pub keep-Moves : {A : Type 0} (r : Outcome A) → Moves T (λ s. (r, s))
  keep-Moves r = record { moves = order.same }

  pub pure-Moves : {A : Type 0} (a : A) → Moves T (pure a)
  pure-Moves a = record { moves = order.same }

  pub fail-Moves : {A : Type 0} (e : Error) → Moves T (fail {A = A} e)
  fail-Moves e = record { moves = order.same }

  pub or_fail-Moves : {E A : Type 0} (f : E → Error) (r : Result E A) → Moves T (or_fail f r)
  or_fail-Moves f (value a) = record { moves = order.same }
  or_fail-Moves f (error e) = record { moves = order.same }

  pub or_panic-keeps : {A : Type 0} (o : Option A) (s : S) → T s (or_panic o s).1
  or_panic-keeps none s = order.same s
  or_panic-keeps (some a) s = order.same s

  and_then-moves :
      {A B : Type 0} (k : A → Op S B) (s : S) (p : Outcome A × S)
      → T s p.1
      → ((a : A) → Moves T (k a))
      → T s (and_then k p).1
  and_then-moves k s (ok a, t) first next = order.chain s t (k a t).1 first ((next a).moves t)
  and_then-moves k s (err e, t) first next = first
  and_then-moves k s (panic, t) first next = first
  and_then-moves k s (exhausted, t) first next = first

  pub then-Moves :
      {A B : Type 0} {m : Op S A} {k : A → Op S B}
      → Moves T m
      → ((a : A) → Moves T (k a))
      → Moves T (m >>= k)
  then-Moves {A} {B} {m} {k} first next = record {
    moves = λ s. and_then-moves k s (m s) (first.moves s) next;
  }

module _ {S A : Type 0} {T : S → S → Type 0} where
  pub if-Moves : {m k : Op S A} (b : Bool) → Moves T m → Moves T k → Moves T (if b then m else k)
  if-Moves true p q = p
  if-Moves false p q = q

  pub choose-Moves :
      {m k : Op S A} (b : Bool) → Moves T m → Moves T k → Moves T (elim b [ true ↦ m | false ↦ k ])
  choose-Moves true p q = p
  choose-Moves false p q = q

  pub elim-Moves :
      {B : Type 0} {m : Op S A} {k : B → Op S A} (o : Option B)
      → Moves T m
      → ((b : B) → Moves T (k b))
      → Moves T (elim o [ none ↦ m | some b ↦ k b ])
  elim-Moves none p q = p
  elim-Moves (some b) p q = q b
