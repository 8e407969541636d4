-- ===== src/Host/Honest.antt =====
-- The steps of the host's handshake with an Ark that answers.
use darkbio_wire_rs.Common.{
  ℕ, zero, suc, ◌≤◌, ◌≡◌, refl, sym, subst, ◌∙◌, some, List, [], ◌∷◌, ◌++◌, map, length,
  length-append, true, false, eq→==, arith,
}
use darkbio_wire_rs.Common.Slices.{slice?}
use darkbio_wire_rs.Error.{value, Outcome, ok, or_panic, and_then}
use darkbio_wire_rs.Io.{Env}
use darkbio_wire_rs.Io.Laws.{Event, byte, MemchrLaws, Script, CobsLaws}
use darkbio_wire_rs.Limits.{
  crypto_domain_wire, crypto_domain_wire_ark_to_host, crypto_domain_wire_host_to_ark,
}
use darkbio_wire_rs.Handshake.{ArkHello, ArkHelloAuth}
use darkbio_wire_rs.Crypto.{Crypto}
use darkbio_wire_rs.Attestation
use darkbio_wire_rs.Attestation.{Attestation, Verifier}
use darkbio_wire_rs.Framing
use darkbio_wire_rs.Framing.{Framing}
use darkbio_wire_rs.Framing.Inv.{IsValid, rest}
use darkbio_wire_rs.Framing.Read.{IsEnough, IsEnough-mono}
use darkbio_wire_rs.Framing.Send.{packet_wire}
use darkbio_wire_rs.Framing.Arrive.{Arrives, next_packet-Arrives}
use darkbio_wire_rs.Host.{
  HostSide, Greeting, is_for, sized_a2h, skip_stale, read_ark_hello, establish,
}

module _ {R W : Type 0} (env : Env R W) (c : Crypto) where
  -- A packet, and the buffer that its frame was coded in.
  abbrev pub Sent : Type 0
  Sent = List ℕ × List ℕ

  -- Its frame fits, and it is for another key.
  abbrev pub IsStale : c.Fingerprint → Sent → Type 0
  IsStale fp (packet, buf) =
      (env.cobs.encode_buffer (length packet) ≤ env.frame_limit)
      × (env.cobs.encode_buffer (length packet) ≤ length buf)
      × (is_for env c fp (c.recipient packet) ≡ false)

  abbrev pub AllStale : c.Fingerprint → List Sent → Type 0
  AllStale fp [] = Unit
  AllStale fp (s ∷ ss) = IsStale fp s × AllStale fp ss

  -- The stream of some packets, and what follows it.
  abbrev pub stream_of : List Sent → List Event → List Event
  stream_of [] es = es
  stream_of ((packet, buf) ∷ ss) es = map byte (packet_wire env packet buf) ++ stream_of ss es

  module _ (fuel : ℕ) where
    skip_stale-hits_last :
        (fp : c.Fingerprint) (packet : List ℕ) (h : HostSide R W c)
        → (Framing.next_packet env fuel h.framing).0 ≡ ok (some (length packet))
        → slice? (Framing.next_packet env fuel h.framing).1.decobs_buffer 0 (length packet)
          ≡ some packet
        → is_for env c fp (c.recipient packet) ≡ true
        → skip_stale env c fuel fp 0 h
          ≡ (ok (length packet), record h { framing = (Framing.next_packet env fuel h.framing).1 })
    unfolding skip_stale
    skip_stale-hits_last fp packet h received bytes mine = rw (received, bytes, mine)

    skip_stale-hits :
        (more : ℕ) (fp : c.Fingerprint) (packet : List ℕ) (h : HostSide R W c)
        → (Framing.next_packet env fuel h.framing).0 ≡ ok (some (length packet))
        → slice? (Framing.next_packet env fuel h.framing).1.decobs_buffer 0 (length packet)
          ≡ some packet
        → is_for env c fp (c.recipient packet) ≡ true
        → skip_stale env c fuel fp (suc more) h
          ≡ (ok (length packet), record h { framing = (Framing.next_packet env fuel h.framing).1 })
    unfolding skip_stale
    skip_stale-hits more fp packet h received bytes mine =
        rw (received, bytes, and_then, or_panic, mine)

    pub skip_stale-skips :
        (more : ℕ) (fp : c.Fingerprint) (packet : List ℕ) (h : HostSide R W c)
        → (Framing.next_packet env fuel h.framing).0 ≡ ok (some (length packet))
        → slice? (Framing.next_packet env fuel h.framing).1.decobs_buffer 0 (length packet)
          ≡ some packet
        → is_for env c fp (c.recipient packet) ≡ false
        → skip_stale env c fuel fp (suc more) h
          ≡ skip_stale env c fuel fp more
              (record h { framing = (Framing.next_packet env fuel h.framing).1 })
    unfolding skip_stale
    skip_stale-skips more fp packet h received bytes mine =
        rw (received, bytes, or_panic, and_then, mine)

  module _ (cobs : CobsLaws env.cobs) (script : Script env.reader)
      (laws : MemchrLaws env.memchr) where
    -- The packet was found, and nothing but the framer moved.
    pub record Finds (packet : List ℕ) (es : List Event) (h : HostSide R W c)
        (p : Outcome ℕ × HostSide R W c) : Type 0 where
      pub found : p ≡ (ok (length packet), record h { framing = p.1.framing })
      pub bytes : slice? p.1.framing.decobs_buffer 0 (length packet) ≡ some packet
      pub left_over : rest env script p.1.framing ≡ es
      pub valid : IsValid env.frame_limit p.1.framing
      pub same_writer : p.1.framing.writer ≡ h.framing.writer

    Arrives-Finds :
        (fuel : ℕ) (packet : List ℕ) (es : List Event) (h : HostSide R W c)
        → Arrives env cobs script laws packet es h.framing (Framing.next_packet env fuel h.framing)
        → Finds packet es h
            (ok (length packet), record h { framing = (Framing.next_packet env fuel h.framing).1 })
    Arrives-Finds fuel packet es h a = record {
      found = refl;
      bytes = a.bytes;
      left_over = a.left_over;
      valid = a.valid;
      same_writer = a.same_writer;
    }

    Finds-trans :
        (packet : List ℕ) (es : List Event) (h : HostSide R W c) (st : Framing R W)
        (p : Outcome ℕ × HostSide R W c)
        → st.writer ≡ h.framing.writer
        → Finds packet es (record h { framing = st }) p
        → Finds packet es h p
    Finds-trans packet es h st p e f = record {
      found = f.found;
      bytes = f.bytes;
      left_over = f.left_over;
      valid = f.valid;
      same_writer = f.same_writer ∙ e;
    }

    -- The search for the Ark's hello skips up to as many stale packets as it is told.
    pub skip_stale-Finds :
        (fuel more : ℕ) (fp : c.Fingerprint) (stale : List Sent) (packet buf : List ℕ)
        (es : List Event) (h : HostSide R W c)
        → length stale ≤ more
        → AllStale fp stale
        → env.cobs.encode_buffer (length packet) ≤ env.frame_limit
        → env.cobs.encode_buffer (length packet) ≤ length buf
        → is_for env c fp (c.recipient packet) ≡ true
        → IsValid env.frame_limit h.framing
        → IsEnough env script fuel (rest env script h.framing)
        → rest env script h.framing ≡ stream_of stale (map byte (packet_wire env packet buf) ++ es)
        → Finds packet es h (skip_stale env c fuel fp more h)
    skip_stale-Finds fuel zero fp [] packet buf es h few old fits coded mine v enough next =
        let a =
          next_packet-Arrives env cobs script laws fuel packet buf es h.framing fits coded v enough
            next in
        subst (Finds packet es h)
          (sym (skip_stale-hits_last fuel fp packet h a.received a.bytes mine))
          (Arrives-Finds fuel packet es h a)
    skip_stale-Finds fuel (suc more) fp [] packet buf es h few old fits coded mine v enough next =
        let a =
          next_packet-Arrives env cobs script laws fuel packet buf es h.framing fits coded v enough
            next in
        subst (Finds packet es h)
          (sym (skip_stale-hits fuel more fp packet h a.received a.bytes mine))
          (Arrives-Finds fuel packet es h a)
    skip_stale-Finds fuel zero fp (s ∷ ss) packet buf es h few old fits coded mine v enough next =
        absurd (omega arith)
    skip_stale-Finds fuel (suc more) fp ((p, b) ∷ ss) packet buf es h few old fits coded mine v
          enough next =
        let later = stream_of ss (map byte (packet_wire env packet buf) ++ es) in
        let a =
          next_packet-Arrives env cobs script laws fuel p b later h.framing old.0.0 old.0.1 v enough
            next in
        let st = (Framing.next_packet env fuel h.framing).1 in
        let ih =
          skip_stale-Finds fuel more fp ss packet buf es (record h { framing = st }) (omega arith)
            old.1 fits coded mine a.valid
            (IsEnough-mono env script fuel (rest env script h.framing) (rest env script st)
              (rw (a.left_over, next)
                (omega (arith, length-append (map byte (packet_wire env p b)) later)))
              enough)
            a.left_over in
        subst (Finds packet es h)
          (sym (skip_stale-skips fuel more fp p h a.received a.bytes old.0.2))
          (Finds-trans packet es h st (skip_stale env c fuel fp more (record h { framing = st }))
            a.same_writer ih)

  module _ {Info : Type 0} where
    pub read_ark_hello-accepts :
        (verifier : Verifier c.VerifyingKey Info) (auth : ArkHelloAuth c.VerifyingKey c.PublicKey)
        (sk : c.SecretKey) (size : ℕ) (h : HostSide R W c) (bytes sign1 : List ℕ)
        (hello : ArkHello c.VerifyingKey c.PublicKey) (attestation : Attestation)
        (identity : c.VerifyingKey) (info : Info)
        → slice? h.framing.decobs_buffer 0 size ≡ some bytes
        → c.decrypt_ark_hello bytes auth sk crypto_domain_wire ≡ value sign1
        → c.peek_ark_hello sign1 ≡ value hello
        → Attestation.new c hello.ark_attest ≡ ok attestation
        → verifier.verify attestation ≡ value (identity, info)
        → c.verify_ark_hello sign1 auth identity crypto_domain_wire ≡ value hello
        → read_ark_hello env c verifier auth sk size h
          ≡ (ok (record { ark_identity = identity; info = info; ark_hello = hello }), h)
    unfolding read_ark_hello
    read_ark_hello-accepts verifier auth sk size h bytes sign1 hello attestation identity info b d p
          a v s =
        rw (b, d, p, a, v, s)

    pub establish-ends :
        (signer : c.SigningKey) (sk : c.SecretKey) (g : Greeting c Info) (h : HostSide R W c)
        (receiver : c.Receiver) (sender : c.Sender) (encap ack : List ℕ)
        → length g.ark_hello.a2h_encap ≡ c.encap_key_size
        → c.new_receiver sk g.ark_hello.a2h_encap crypto_domain_wire_ark_to_host ≡ value receiver
        → (c.new_sender g.ark_hello.ark_crypto crypto_domain_wire_host_to_ark h.rng).0
          ≡ value (sender, encap)
        → let rng = (c.new_sender g.ark_hello.ark_crypto crypto_domain_wire_host_to_ark h.rng).1 in
          let sealed =
            c.seal_host_ack
              (record { h2a_encap = encap })
              (record { ark_signer = g.ark_identity; ark_crypto = g.ark_hello.ark_crypto })
              signer
              g.ark_hello.ark_crypto
              crypto_domain_wire
              rng in
          (sealed.0 ≡ value ack)
          → (Framing.send_packet env ack h.framing).0 ≡ ok tt
          → establish env c signer sk g h ≡ (
            ok (record { sender = sender; receiver = receiver }),
            record h { framing = (Framing.send_packet env ack h.framing).1; rng = sealed.1 },
          )
    unfolding establish
    establish-ends signer sk g h receiver sender encap ack sized receiving sending acked sent = rw (
      sized_a2h,
      eq→== (length g.ark_hello.a2h_encap) c.encap_key_size sized,
      receiving,
      sending,
      acked,
      sent,
    )
