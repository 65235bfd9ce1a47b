-- ===== src/Lib.antt =====
-- The C++ code of the qsync system (code/src): secure multi-party computation among several
-- parties and a trusted party over one broadcast channel with time slots. This library models the
-- parts that move and combine data, and proves what the protocol relies on. Paths below are from
-- the repository's root.
--
-- How the parts interact: a party computes on authenticated additive shares
-- (code/src/asterisk/sharing.h) of ring elements, where the ring is NTL's field or the one of bits
-- (code/src/utils/types.cpp). It packs and sends them through the broadcast bus
-- (code/src/io/bcast_bus.cpp), which fragments a message, encrypts each fragment under a nonce
-- (code/src/io/aes_ctr.h), waits for the party's slot in the TDMA scheduler
-- (code/src/net/tdma_scheduler.cpp) and broadcasts. The receiving side puts the fragments together
-- and hands the bytes out in order.
--
-- Common holds the shared names: the tests on numbers, lists over native numbers (Common/Lists),
-- association lists for `std::map` and `std::set` (Common/Map), and division (Common/Arith).
--
-- Tdma models code/src/net/tdma_scheduler.{h,cpp}: `Schedule` and `Scheduler` are the structs,
-- `make` is the constructor, `slot_of`, `owns_slot`, `mark_post`, `wait_for_slot` and
-- `wait_and_mark_pre` are the methods, with the body of the waiting loop in `decide` and
-- `note_wait`. The clock is a list of readings, which bounds the loop: `none` means that the
-- readings ran out while it was still waiting. Tdma/Wait is about the loop, Tdma/Return about
-- `wait_for_slot` with its test of `disabled_`. Casts and sums wrap at their widths.
--
-- Ring is the interface that the element type of shares and circuits offers; Bits/Ring fills it
-- for `BoolRing`. Bits models `BoolRing` and its packing, and the index helpers of
-- code/src/utils/helpers.cpp; packing at a width `w` stands for the loops at 8 and at 64 bits. The
-- loops take the number of entries as fuel, and each round uses an entry up.
--
-- Sharing models the share of one party (`AuthAddShare`) and what the trusted party keeps of all
-- (`TPShare`), with their linear operations; Sharing/Mac treats a list with one share of each
-- party, Sharing/Dealer the two views of one sharing.
--
-- Circuit models the gate classes, the builder and `orderGatesByLevel` (Circuit/Order; its levels
-- in Circuit/Order/Levels, its result in Circuit/Order/Placed) of code/src/utils/circuit.h over
-- any element type; an overload of `addGate` is one function for each number of inputs.
--
-- Circuit/Evaluate is `evaluate`, with what it throws as results of `Evaluated`; what NTL's
-- conversions tell of an element is the parameter `Representation`. Circuit/Faults says which of
-- them it throws.
--
-- Ring/Solve decides ring equations by a normal form; it models no code.
--
-- Asterisk models the online phase, code/src/asterisk/online_evaluator_load_balanced.cpp, over any
-- ring. The data of the offline phase (code/src/asterisk/preproc.h) is `PreprocGate`, used once
-- with the fields of a party and once with those of the trusted party; `Party` and `Checks` are
-- the state of a party. In `setInputs`, `sent_input` is what a party sends the others, and what it
-- receives from the owner of an input is the parameter `from_owner`; an owner that is no party,
-- for which the source waits for ever, is left out. Asterisk/Online has the share that a party
-- computes for each kind of gate (the cases of `evaluateGatesAtDepthPartySend`),
-- Asterisk/Online/Round the round `evaluateGatesAtDepth` at all parties, with the exchange in
-- slices; the network delivers each vector to its receiver, so a round is a function of all
-- states. Asterisk/Online/Run has `setInputs`, the loop over the levels and `getOutputs`,
-- Asterisk/Online/Verify `MACVerification`, in which the generator of emp-tool is a parameter.
-- Asterisk/Shared says what it is for the parties to share a value, Asterisk/Online/Setup what the
-- offline phase has to leave, Asterisk/Online/Products and Asterisk/Online/Sends what the shares
-- of a gate come to (with the identities of Asterisk/Online/Identities), and
-- Asterisk/Online/Refine how the masked wires follow the plain ones; Asterisk/Online/Run/Inputs,
-- Outputs and Phase join these from `setInputs` to `getOutputs`.
--
-- Asterisk/Offline models the offline phase, code/src/asterisk/offline_evaluator.cpp: `keyGen`,
-- `randomShare`, `randomShareSecret` and `randomShareWithParty` (Asterisk/Offline/Role), as the
-- trusted party runs them and as a party does; the generators of emp-tool are a parameter. The
-- source has one `setWireMasksParty` for all ids, and so has Asterisk/Offline/Gates: it is written
-- over a `Role`, of which `tp_role` and `party_role` are the two kinds. Asterisk/Offline/Transfer
-- is the message to the last party, as the values that it carries and not their bytes,
-- Asterisk/Offline/WireMasks joins these to `setWireMasks`. `input_pid_map` is a function; where
-- the map has no entry the source throws. The generators are in step: Asterisk/Offline/Sync says
-- so of all parties at once, Asterisk/Offline/Calls (with Owner, Secret and WithParty) shows that
-- every call keeps it, Asterisk/Offline/Keeps that a gate writes one entry,
-- Asterisk/Offline/Together, Place and Ready what a gate needs and leaves,
-- Asterisk/Offline/Linear, Multiply and Prepare the kinds of gates, Asterisk/Offline/Sequence and
-- Phase the gates one after the other. Asterisk/Protocol joins the two phases, by way of the
-- inputs in Asterisk/Protocol/Inputs.
--
-- Reads beyond a vector, which no circuit of the builder leads to, give zero.
--
-- Bus/Dispatch models what the pump does with one datagram: `dispatch` is the body of `pump_loop_`
-- after `recvfrom` returned bytes, with `handle_data_`, `handle_nack_` and `handle_poison_` on the
-- bytes; Bus/Dispatch/Arrival joins it to the sending side. A function from ids stands for each
-- array of states.
--
-- Bus/Nack models the receiver's requests, `compute_missing_locked_` and `drain_nack_state_`: a
-- list in the order of its keys stands for the map `nack_state`, and the function returns the
-- fragments that it sends NACKs for.
--
-- Bus/Tx models the sending side for one target: `send` with its loop `send_loop`, one round for
-- each answer of `sendto` in a list, and the buffer of sent fragments in `keep_record` and
-- `evict`. `crypt`, AES-CTR under the pair's key, is a parameter. When the list of answers ends
-- before the message, the result is `starved`; Bus/Tx/Returns says which lists are enough.
-- Bus/Retransmit is `handle_nack_` after its fields are read, with `resend_fragment_`. Bus/Witness
-- is the gap detector of a third party for one stream, `witness_observe_` and `witness_drain_`;
-- the fuel of `advance` is the number of entries in `seen`, of which each round removes one.
--
-- Bus/Wire models the datagrams as lists of bytes and the nonce. Bus/Rx models the receiving side
-- for one sender: `accept` is `handle_data_` after decryption, `drain_pending` is
-- `drain_pending_locked_` (fuel: the number of pending messages, of which each round removes one;
-- Bus/Rx/Drain), `recv` is `recv`. Bus/Rx/Stream and Bus/Rx/Run state what a stream of messages is
-- and what may happen to it; Bus/Rx/Keep and Bus/Rx/Arrive follow a fragment from its arrival on.
--
-- Not modelled: AES and SHA-256 (OpenSSL), sockets and threads (a lock makes each handler one
-- step), the JSON schedule, NTL conversions, the generators of circuits, comparison gates and
-- Boolean circuits in the online phase, the test of `evaluateCircuit` that chooses between outputs
-- and zeros, the clock client, the benchmarks and the test drivers.
pub mod Common
pub mod Tdma
pub mod Ring
pub mod Asterisk
pub mod Bits
pub mod Sharing
pub mod Bus
pub mod Circuit
