-- ===== src/Lib.antt =====
-- The wire of darkbio-wire-rs: an encrypted protocol between an Ark and a host over a byte stream.
--
-- The program's parts, from the stream up:
--   - framing (src/framing.rs, Framing.antt): zero delimited frames over a reader and a writer,
--     their payload COBS encoded. A frame longer than the limit is discarded up to the next
--     delimiter. `Framing.next_frame` is the loop `next_frame`, split at its own `if`s into
--     `take_frame` (a delimiter was found), `make_room` with `compact` (fragments), `drop_full` (the
--     buffer is full), `read_more` and `ingest` (the read). `next_packet`, `send_packet`,
--     `send_frame`, `send_reset` and the helpers for tests carry the source's names.
--   - constants and errors (src/lib.rs, Limits.antt, Error.antt): `max_message_size` is the loop of
--     MAX_MESSAGE_SIZE, `Error` has the source's variants.
--   - session (src/session.rs, Session.antt): the two HPKE contexts; `seal` and `open_packet`.
--   - handshake messages (src/handshake.rs, Handshake.antt), and attestations with the traits that
--     present and judge them (src/side_ark.rs, src/side_host.rs, Attestation.antt).
--   - the host side (src/side_host.rs, Host.antt) and the Ark side (src/side_ark.rs, Ark.antt). Each
--     owns a framer and at most one session, made by a handshake of three messages.
--   - the fuzz targets: fuzz/fuzz_targets/next_frame.rs (Fuzz.antt), a reader that hands out its data in
--     portions and the loop that collects frames from the wire, and fuzz/fuzz_targets/next_packet.rs
--     (Fuzz/Packets.antt), the loop that collects packets.
--
-- How code becomes definitions:
--   - An operation is a function of the state to how it ends and the state after it: `Op S A` of
--     Error.antt. It ends with the cases of its `Result`, with a panic (a slice out of bounds), or,
--     in the model alone, with its fuel used up. What was written before an error stays written.
--   - A buffer is a list of numbers. Slices are `slice?`, which is `none` where the code panics, and
--     writes in place are `write_at` (Common/Slices.antt).
--   - `reader_search + found` and the like stay within the buffer; the count of discarded bytes wraps
--     at 2^64.
--   - The limits are arguments (`frame_limit` of `Io.Env`, `message_limit`), so that statements hold
--     for every limit; Limits.antt has the values.
--   - Log lines are left out.
--
-- What is not under the repository is an argument: the streams (`Io.Reader`, `Io.Writer`), memchr
-- and COBS (`Io.Env`), the crates for keys, COSE, CBOR, CWT and HPKE (`Crypto.Crypto`), the
-- generated protobuf messages (`Crypto.Message`), the system's clock. What is known of them are
-- the records of Io/Laws.antt and of Session/Laws.antt: `MemchrLaws` (the first position of a
-- byte), `CobsLaws` (the coding has no zero, is as long as promised and is decoded to its input),
-- `Script` (a reader follows a list of events, each a byte or a failure, in portions of its
-- choice; an end of the stream is the end of the list), `Secure` (what one context seals, its
-- partner opens, in order), `Codec` (a message is decoded from its encoding), `Sink` (a writer
-- takes everything); and of Crypto/Honest.antt: `Honest` (what is sealed or signed with the right
-- keys is opened and verified, and fresh contexts are in step) and `HasRoom` (the messages of the
-- handshake fit a frame). Tests/ has instances of all of them, which the witnesses use.
--
-- Fuel: `next_frame` takes a bound on the passes of its loop. Each pass that goes on reads a byte or
-- consumes one, so two passes for each event still to come and one more are enough
-- (`Framing.Read.IsEnough`). Loops of the Ark take a bound on the rounds; each round uses up a part of
-- the stream, so one more than the events to come is enough. The host's search for the Ark's hello
-- counts down from MAX_STALE_FRAMES.
--
-- The modules of a component: Framing/Spec.antt reads one frame from a stream of events, as a
-- specification. Framing/Inv.antt has the invariant of the state, Refill.antt and Room.antt the
-- steps without a delimiter, Refine.antt the loop, Read.antt the frame as bytes, Keeps.antt what
-- reading leaves alone, Packet.antt and Send.antt the packets, RoundTrip.antt both together,
-- Failure.antt failures within a frame, Sink.antt a stream that takes everything, Live.antt and
-- Transport.antt how reading and sending can end, Appends.antt and Arrive.antt what is written and
-- what comes in, Alike.antt two framers on the same stream in other portions. Session/ is about
-- one session, sequences of messages, and (Uses) how each direction moves alone.
--
-- Host/ and Ark/ have a module for each operation (Sends, Receives, Surface), for what a handshake
-- has checked (Authentic and Established, Accept), for termination (Total and Ends, Loop), and for
-- a handshake with a peer that answers (Tail, Honest, Opening) or does not (Host/Stale.antt).
-- Host/History.antt keeps a log beside a run of the host's calls, which a handshake clears, and
-- Ark/History.antt beside one of the Ark's, which a call clears that took a reset (Ark/Resets.antt);
-- Kept.antt and Tracks.antt follow them. In both, Alike.antt, Calls.antt and Portions.antt compare
-- two sides on the same stream in other portions, and Appends.antt and Writes.antt follow what is
-- written, the Ark's by Moves.antt, which has a handshake under any order that its steps keep.
--
-- Exchange/ is about the two sides together. Its theorems have as a premise that what each side
-- writes in all comes next in the other's stream. ToArk.antt and ToHost.antt carry one message,
-- Talk.antt, Runs.antt and Conversation.antt any number of them both ways; Transcript.antt has the
-- messages of the handshake, Starts.antt, Answers.antt (with ArkGreets.antt), HostJoins.antt and
-- ArkJoins.antt its steps, Handshake.antt the whole of it; Rounds.antt, Parts.antt and Whole.antt
-- put the handshake and a conversation together.
--
-- Error/Runs.antt, Error/Total.antt, Error/Moves.antt and Error/Agrees.antt carry facts through
-- the steps of an operation: about its result, its termination, how it moves the state, and two
-- states beside each other. Each component's Tests.antt, and Sides, Agreed, Calls, Dialogue and
-- Complete of Exchange/, run it at concrete inputs.
--
-- Not modelled: src/protocol.rs and build.rs (generated code and its build), benches/ (measurements),
-- and the crates above.
pub mod Common
pub mod Error
pub mod Io
pub mod Framing
pub mod Limits
pub mod Handshake
pub mod Crypto
pub mod Session
pub mod Attestation
pub mod Host
pub mod Ark
pub mod Exchange
pub mod Fuzz
pub mod Tests
