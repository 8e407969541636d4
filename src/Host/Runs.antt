-- ===== src/Host/Runs.antt =====
-- What operations of the host achieve, without a session before them: a fact about the result, and
-- still no session, however they end.
use darkbio_wire_rs.Common.{ℕ, ◌≡◌, refl, none, some}
use darkbio_wire_rs.Common.Slices.{slice?}
use darkbio_wire_rs.Error.{Outcome, ok, err, panic, exhausted, Op, pure, and_then, ◌>>=◌, ◌>>◌}
use darkbio_wire_rs.Error.Runs.{Ends, Achieves, any-Ends, or_panic-Ends, weaken-Ends}
use darkbio_wire_rs.Io.{Env}
use darkbio_wire_rs.Crypto.{Crypto}
use darkbio_wire_rs.Framing.{Framing}
use darkbio_wire_rs.Session.{Session}
use darkbio_wire_rs.Host.{HostSide, on_framing, draw, packet, keep_session}

module _ {R W : Type 0} {c : Crypto} where
  abbrev pub NoSession : HostSide R W c → Type 0
  NoSession h = h.session ≡ none

  -- No session before and after.
  abbrev pub Runs : {A : Type 0} → (A → Type 0) → Op (HostSide R W c) A → Type 0
  Runs Q m = Achieves NoSession Q m

  module _ (env : Env R W) where
    pub on_framing-Runs :
        {A : Type 0} (m : Op (Framing R W) A)
        → Runs (λ a. (f : Framing R W) × ((m f).0 ≡ ok a)) (on_framing env c m)
    on_framing-Runs m = record {
      ends = λ h e.
          let h' : HostSide R W c = record h { framing = (m h.framing).1 } in
          weaken-Ends NoSession (m h.framing).0 h' (λ a q. (h.framing, q))
            (any-Ends NoSession (m h.framing).0 h' e);
    }

    pub draw-Runs :
        {A : Type 0} (f : c.Rng → A × c.Rng)
        → Runs (λ a. (rng : c.Rng) × ((f rng).0 ≡ a)) (draw env c f)
    draw-Runs f = record { ends = λ h e. ((h.rng, refl), e) }

    pub packet-Runs : (size : ℕ) → Runs (λ bytes. Unit {0}) (packet env c size)
    packet-Runs size = record {
      ends = λ h e. or_panic-Ends NoSession (slice? h.framing.decobs_buffer 0 size) h e;
    }

    -- The last step: a session after success alone.
    abbrev pub ConcludesAt :
        {A : Type 0} → (A → Session c → Type 0) → Outcome A → HostSide R W c → Type 0
    ConcludesAt S (ok a) h = (s : Session c) × (h.session ≡ some s) × S a s
    ConcludesAt S (err _) h = h.session ≡ none
    ConcludesAt S panic h = h.session ≡ none
    ConcludesAt S exhausted h = h.session ≡ none

    pub record Concludes {A : Type 0} (S : A → Session c → Type 0) (m : Op (HostSide R W c) A)
        : Type 0 where
      pub concludes : (h : HostSide R W c) → h.session ≡ none → ConcludesAt S (m h).0 (m h).1

    then-ConcludesAt :
        {A B : Type 0} {Q : A → Type 0} (S : B → Session c → Type 0) (k : A → Op (HostSide R W c) B)
        (p : Outcome A × HostSide R W c)
        → Ends NoSession Q p.0 p.1
        → ((a : A) → Q a → Concludes S (k a))
        → ConcludesAt S (and_then k p).0 (and_then k p).1
    then-ConcludesAt S k (ok a, h) (q, e) next = (next a q).concludes h e
    then-ConcludesAt S k (err x, h) e next = e
    then-ConcludesAt S k (panic, h) e next = e
    then-ConcludesAt S k (exhausted, h) e next = e

    pub then-Concludes :
        {A B : Type 0} {Q : A → Type 0} {S : B → Session c → Type 0} {m : Op (HostSide R W c) A}
        {k : A → Op (HostSide R W c) B}
        → Runs Q m
        → ((a : A) → Q a → Concludes S (k a))
        → Concludes S (m >>= k)
    then-Concludes {A} {B} {Q} {S} {m} {k} first next = record {
      concludes = λ h e. then-ConcludesAt S k (m h) (first.ends h e) next;
    }

    pub keep-Concludes :
        {A : Type 0} {S : A → Session c → Type 0} (a : A) (s : Session c)
        → S a s
        → Concludes S (keep_session env c s >> pure a)
    keep-Concludes a s q = record { concludes = λ h e. (s, refl, q) }
