-- ===== src/Session/Tests.antt =====
-- Sessions in the concrete world.
use darkbio_wire_rs.Common.{ℕ, ◌≡◌, refl, List, [], ◌∷◌, map, arith}
use darkbio_wire_rs.Error.{ok}
use darkbio_wire_rs.Session.{Session, seal}
use darkbio_wire_rs.Session.RoundTrip.{Carries, seal-open_packet}
use darkbio_wire_rs.Session.Stream.{seal_all, open_all, within, open_all-seal_all}
use darkbio_wire_rs.Tests.Cipher.{plain, plain_secure, bytes, bytes_codec}

abbrev here : Session plain
here = record { sender = (7, 0); receiver = (9, 0) }

abbrev there : Session plain
there = record { sender = (9, 0); receiver = (7, 0) }

seal-open_packet_example :
    Carries plain plain_secure bytes 0
      (1 ∷ 2 ∷ [])
      here
      there
      (seal plain 2 bytes (1 ∷ 2 ∷ []) (here, []))
seal-open_packet_example =
    seal-open_packet plain plain_secure bytes bytes_codec 2 0 (1 ∷ 2 ∷ []) here there []
      (omega arith) refl

-- Of three messages the second is too long.
abbrev three : List (List ℕ)
three = (1 ∷ []) ∷ (1 ∷ 2 ∷ 3 ∷ []) ∷ (4 ∷ 5 ∷ []) ∷ []

two_within : within plain 2 bytes three ≡ (1 ∷ []) ∷ (4 ∷ 5 ∷ []) ∷ []
unfolding within
two_within = refl

open_all-seal_all_example :
    open_all plain 2 bytes (seal_all plain 2 bytes three (here, [])) there
    ≡ map ok (within plain 2 bytes three)
open_all-seal_all_example =
    open_all-seal_all plain 2 bytes plain_secure bytes_codec three 3 here there [] (omega arith)
      refl
