-- ===== src/Tests/Codec.antt =====
-- A coder with the laws of COBS that the framer relies on, in place of COBS: a frame begins with
-- a one, and holds the successors of the packet's numbers.
use native.Mathlib.Decide.{dec_le}
use darkbio_wire_rs.Common.{
  ℕ, zero, suc, String, ◌+◌, ◌≤◌, ◌<◌, ◌≡◌, refl, ap, List, [], ◌∷◌, length, take, map, length-map,
  arith, leb, le→leb, lt→leb, if◌then◌else◌,
}
use darkbio_wire_rs.Common.Slices.{write_at, length-write_at, take-write_at}
use darkbio_wire_rs.Error.{CobsDecodeError, empty_input, other_decode, Result, value, error}
use darkbio_wire_rs.Io.{Cobs}
use darkbio_wire_rs.Io.Laws.{NoZero, CobsLaws}

-- Writes to the front of a buffer, if there is room.
abbrev put : {E : Type 0} → E → List ℕ → List ℕ → Result E ℕ × List ℕ
put full xs buf =
    if leb (length xs) (length buf)
    then (value (length xs), write_at buf 0 xs)
    else (error full, buf)

abbrev full_text : String
full_text = "no room"

abbrev pred : ℕ → ℕ
pred zero = 0
pred (suc n) = n

abbrev shift : List ℕ → List ℕ
shift p = 1 ∷ map suc p

abbrev unshift : List ℕ → List ℕ → Result CobsDecodeError ℕ × List ℕ
unshift [] buf = (error empty_input, buf)
unshift (b ∷ f) buf = put (other_decode full_text) (map pred f) buf

abbrev pub shifting : Cobs
shifting = record {
  encode_buffer = λ n. n + 1;
  encode = λ p buf. put full_text (shift p) buf;
  decode_nonzero = unshift;
}

length-put : {E : Type 0} (full : E) (xs buf : List ℕ) → length (put full xs buf).1 ≡ length buf
length-put full xs buf = elim (dec_le (length xs) (length buf)) [
  | yes h ↦ rw (le→leb (length xs) (length buf) h) (length-write_at buf 0 xs (omega arith))
  | no h ↦ rw (lt→leb (length xs) (length buf) (omega arith))
]

put-fits :
    {E : Type 0} (full : E) (xs buf : List ℕ) (n : ℕ)
    → (put full xs buf).0 ≡ value n
    → (n ≡ length xs) × (n ≤ length buf)
put-fits full xs buf n e = ground arith

put-room :
    {E : Type 0} (full : E) (xs buf : List ℕ)
    → length xs ≤ length buf
    → put full xs buf ≡ (value (length xs), write_at buf 0 xs)
put-room full xs buf h = rw (le→leb (length xs) (length buf) h)

-- What was put is at the front.
take-put :
    {E : Type 0} (full : E) (xs buf : List ℕ)
    → length xs ≤ length buf
    → take (length xs) (put full xs buf).1 ≡ xs
take-put full xs buf h =
    rw (put-room full xs buf h) (take-write_at buf 0 (length xs) xs (omega arith) (omega arith))

shift-NoZero : (p : List ℕ) → NoZero (map suc p)
shift-NoZero [] = tt
shift-NoZero (b ∷ p) = ((λ e. absurd (omega arith)), shift-NoZero p)

unshift-shift : (p : List ℕ) → map pred (map suc p) ≡ p
unshift-shift [] = refl
unshift-shift (b ∷ p) = ap (λ l. b ∷ l) (unshift-shift p)

length-shift : (p : List ℕ) → length (shift p) ≡ length p + 1
length-shift p = omega (arith, length-map suc p)

length-unshift : (f buf : List ℕ) → length (unshift f buf).1 ≡ length buf
length-unshift [] buf = refl
length-unshift (b ∷ f) buf = length-put (other_decode full_text) (map pred f) buf

unshift-fits : (f buf : List ℕ) (n : ℕ) → (unshift f buf).0 ≡ value n → n ≤ length buf
unshift-fits [] buf n e = cc
unshift-fits (b ∷ f) buf n e = (put-fits (other_decode full_text) (map pred f) buf n e).1

shift-encodes :
    (p buf : List ℕ)
    → length p + 1 ≤ length buf
    → (n : ℕ) × ((put full_text (shift p) buf).0 ≡ value n)
      × (0 < n)
      × (n ≤ length p + 1)
      × NoZero (take n (put full_text (shift p) buf).1)
shift-encodes p buf h =
    let room : length (shift p) ≤ length buf = omega (arith, length-shift p) in
    (
      length (shift p),
      ap (λ q. q.0) (put-room full_text (shift p) buf room),
      omega arith,
      omega (arith, length-shift p),
      rw (take-put full_text (shift p) buf room) ((λ e. absurd (omega arith)), shift-NoZero p),
    )

shift-decodes :
    (p buf out : List ℕ) (n : ℕ)
    → (put full_text (shift p) buf).0 ≡ value n
    → length p ≤ length out
    → ((unshift (take n (put full_text (shift p) buf).1) out).0 ≡ value (length p))
      × (take (length p) (unshift (take n (put full_text (shift p) buf).1) out).1 ≡ p)
shift-decodes p buf out n e h =
    let (m, room) = put-fits full_text (shift p) buf n e in
    rw (m, take-put full_text (shift p) buf (omega (arith, m, room)), unshift-shift p)
      (
        ap (λ q. q.0) (put-room (other_decode full_text) p out h),
        take-put (other_decode full_text) p out h,
      )

pub shifting-CobsLaws : CobsLaws shifting
shifting-CobsLaws = record {
  length_encoded = λ p buf. length-put full_text (shift p) buf;
  length_decoded = length-unshift;
  encodes = shift-encodes;
  encode_fits = λ p buf n e. (put-fits full_text (shift p) buf n e).1;
  decode_fits = unshift-fits;
  decodes = shift-decodes;
  grows = λ n. omega arith;
}
