-- ===== src/Error/Agrees.antt =====
-- Operations that give the same result from two states that are alike, and leave them alike.
use darkbio_wire_rs.Common.{◌≡◌, refl, subst, Option, none, some, Bool, true, false, if◌then◌else◌}
use darkbio_wire_rs.Error.{
  Error, Result, value, error, Outcome, ok, err, panic, exhausted, Op, pure, fail, or_fail,
  or_panic, and_then, ◌>>=◌,
}

-- The same result, and states that are alike.
pub record Same {S A : Type 0} (T : S → S → Type 0) (p q : Outcome A × S) : Type 0 where
  pub same_result : p.0 ≡ q.0
  pub alike : T p.1 q.1

pub record Agrees {S A : Type 0} (T : S → S → Type 0) (m : Op S A) : Type 0 where
  pub agrees : (s t : S) → T s t → Same T (m s) (m t)

module _ {S : Type 0} {T : S → S → Type 0} where
  pub keep-Agrees : {A : Type 0} (r : Outcome A) → Agrees T (λ s. (r, s))
  keep-Agrees r = record { agrees = λ s t x. record { same_result = refl; alike = x } }

  pub pure-Agrees : {A : Type 0} (a : A) → Agrees T (pure a)
  pure-Agrees a = record { agrees = λ s t x. record { same_result = refl; alike = x } }

  pub fail-Agrees : {A : Type 0} (e : Error) → Agrees T (fail {A = A} e)
  fail-Agrees e = record { agrees = λ s t x. record { same_result = refl; alike = x } }

  pub or_fail-Agrees : {E A : Type 0} (f : E → Error) (r : Result E A) → Agrees T (or_fail f r)
  or_fail-Agrees f (value a) = record { agrees = λ s t x. record { same_result = refl; alike = x } }
  or_fail-Agrees f (error e) = record { agrees = λ s t x. record { same_result = refl; alike = x } }

  pub or_panic-Same :
      {A : Type 0} (o o' : Option A) (s t : S)
      → o ≡ o'
      → T s t
      → Same T (or_panic o s) (or_panic o' t)
  or_panic-Same none o' s t e x =
      subst (λ p. Same T (panic, s) (or_panic p t)) e record { same_result = refl; alike = x }
  or_panic-Same (some a) o' s t e x =
      subst (λ p. Same T (ok a, s) (or_panic p t)) e record { same_result = refl; alike = x }

  pub continued-Same :
      {A B : Type 0} (k : A → Op S B) (r : Outcome A) (s t : S)
      → T s t
      → ((a : A) → Agrees T (k a))
      → Same T (and_then k (r, s)) (and_then k (r, t))
  continued-Same k (ok a) s t x next = (next a).agrees s t x
  continued-Same k (err e) s t x next = record { same_result = refl; alike = x }
  continued-Same k panic s t x next = record { same_result = refl; alike = x }
  continued-Same k exhausted s t x next = record { same_result = refl; alike = x }

  pub and_then-Same :
      {A B : Type 0} (k : A → Op S B) (p q : Outcome A × S)
      → Same T p q
      → ((a : A) → Agrees T (k a))
      → Same T (and_then k p) (and_then k q)
  and_then-Same k p q x next =
      subst (λ r. Same T (and_then k p) (and_then k (r, q.1))) x.same_result
        (continued-Same k p.0 p.1 q.1 x.alike next)

  pub then-Agrees :
      {A B : Type 0} {m : Op S A} {k : A → Op S B}
      → Agrees T m
      → ((a : A) → Agrees T (k a))
      → Agrees T (m >>= k)
  then-Agrees {A} {B} {m} {k} first next = record {
    agrees = λ s t x. and_then-Same k (m s) (m t) (first.agrees s t x) next;
  }

  pub if-Agrees :
      {A : Type 0} {m k : Op S A} (b : Bool)
      → Agrees T m
      → Agrees T k
      → Agrees T (if b then m else k)
  if-Agrees true p q = p
  if-Agrees false p q = q

  pub choose-Agrees :
      {A : Type 0} {m k : Op S A} (b : Bool)
      → Agrees T m
      → Agrees T k
      → Agrees T (elim b [ true ↦ m | false ↦ k ])
  choose-Agrees true p q = p
  choose-Agrees false p q = q

  pub elim-Agrees :
      {A B : Type 0} {m : Op S A} {k : B → Op S A} (o : Option B)
      → Agrees T m
      → ((b : B) → Agrees T (k b))
      → Agrees T (elim o [ none ↦ m | some b ↦ k b ])
  elim-Agrees none p q = p
  elim-Agrees (some b) p q = q b
