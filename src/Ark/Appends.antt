-- ===== src/Ark/Appends.antt =====
-- What the Ark writes in a handshake.
use darkbio_wire_rs.Common.{ℕ}
use darkbio_wire_rs.Error.{Op}
use darkbio_wire_rs.Error.Moves.{IsOrder, Moves}
use darkbio_wire_rs.Io.{Env}
use darkbio_wire_rs.Io.Laws.{Sink}
use darkbio_wire_rs.Crypto.{Crypto}
use darkbio_wire_rs.Attestation.{Attester}
use darkbio_wire_rs.Framing.{Framing}
use darkbio_wire_rs.Framing.Appends.{
  Appends, Appends-IsOrder, next_packet-Appends, send_packet-Appends,
}
use darkbio_wire_rs.Ark.Tail.{await_ack}
use darkbio_wire_rs.Ark.Moves.{Steps, handshake-Moves, await_ack-Moves}
use darkbio_wire_rs.Ark.{ArkSide, Greeting, on_framing, handshake}

module _ {R W A : Type 0} (env : Env R W) (c : Crypto) (attester : Attester A)
    (sink : Sink env.writer) where
  abbrev pub ArkAppends : ArkSide R W A c → ArkSide R W A c → Type 0
  ArkAppends a a' = Appends env sink a.framing a'.framing

  pub order : IsOrder ArkAppends
  order = record {
    same = λ a. (Appends-IsOrder env sink).same a.framing;
    chain = λ a b d. (Appends-IsOrder env sink).chain a.framing b.framing d.framing;
  }

  pub on_framing-Moves :
      {T : Type 0} {m : Op (Framing R W) T}
      → Moves (Appends env sink) m
      → Moves ArkAppends (on_framing env c attester m)
  on_framing-Moves p = record { moves = λ a. p.moves a.framing }

  appending : Steps env c attester ArkAppends
  appending = record {
    order = order;
    reads = λ fuel. on_framing-Moves (next_packet-Appends env sink fuel);
    sends = λ p. on_framing-Moves (send_packet-Appends env sink p);
    draws = λ f. record { moves = λ a. order.same a };
    attests = record { moves = λ a. order.same a };
  }

  -- A handshake only appends to what was written before, however it ends.
  pub handshake-Appends :
      (fuel rounds : ℕ) → Moves ArkAppends (handshake env c attester fuel rounds)
  handshake-Appends = handshake-Moves env c attester appending

  pub await_ack-Appends :
      (fuel rounds : ℕ) (g : Greeting c) → Moves ArkAppends (await_ack env c attester fuel rounds g)
  await_ack-Appends = await_ack-Moves env c attester appending
