-- ===== src/Tests/Replay.antt =====
-- A reader that replays a list of events, failures among them.
use darkbio_wire_rs.Common.{
  ℕ, zero, suc, ◌≤◌, ◌<◌, ◌≡◌, refl, ap, List, [], ◌∷◌, ◌++◌, map, length, arith,
}
use darkbio_wire_rs.Error.{IoError, Result, value, error}
use darkbio_wire_rs.Io.{Reader}
use darkbio_wire_rs.Io.Laws.{Event, byte, broken, Script, Delivers}

-- The bytes at the front, at most that many, and what follows.
abbrev front : ℕ → List Event → List ℕ × List Event
front zero es = ([], es)
front (suc n) [] = ([], [])
front (suc n) (broken e ∷ es) = ([], broken e ∷ es)
front (suc n) (byte b ∷ es) = let (bs, rest) = front n es in (b ∷ bs, rest)

front-split :
    (n : ℕ) (es : List Event)
    → (length (front n es).0 ≤ n) × (es ≡ map byte (front n es).0 ++ (front n es).1)
front-split zero es = (omega arith, refl)
front-split (suc n) [] = (omega arith, refl)
front-split (suc n) (broken e ∷ es) = (omega arith, refl)
front-split (suc n) (byte b ∷ es) =
    let (le, split) = front-split n es in (omega arith, ap (λ l. byte b ∷ l) split)

abbrev pub play : List Event → ℕ → Result IoError (List ℕ) × List Event
play [] cap = (value [], [])
play (broken e ∷ es) cap = (error e, es)
play (byte b ∷ es) cap = let (bs, rest) = front cap (byte b ∷ es) in (value bs, rest)

abbrev pub replay : Reader (List Event)
replay = record { read = play }

pub play-Delivers : (es : List Event) (cap : ℕ) → 0 < cap → Delivers (λ r. r) cap es (play es cap)
play-Delivers [] cap h = (refl, refl)
play-Delivers (broken e ∷ es) cap h = refl
play-Delivers (byte b ∷ es) zero h = absurd (omega arith)
play-Delivers (byte b ∷ es) (suc cap) h = front-split (suc cap) (byte b ∷ es)

abbrev pub replay_script : Script replay
replay_script = record { events = λ r. r; delivers = play-Delivers }
