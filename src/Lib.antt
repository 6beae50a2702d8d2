-- ===== src/Lib.antt =====
-- easyfibers, a library of coroutines ("fibers") on sockets and timers, in Rust: a model of the
-- parts of it that compute, and what is proved of them.
--
-- The parts of the program. A `Runner` (src/runner.rs) holds fibers and runs those that the `Poller`
-- (src/poller.rs) has queued for it. The poller queues a fiber when its socket is signalled, when its
-- timer fires or when a name was found; timers stand in the timer wheel (src/wheel.rs, set up by
-- src/builder.rs). A fiber that connects to a name has a query written (src/dns.rs, with
-- src/dns_parser/builder.rs) and sent, and the answer parsed (src/dns.rs, with src/dns_parser).
--
-- Which file models which part:
--   DnsParser            src/dns_parser: error.rs is Error, enums.rs Enums, header.rs Header, name.rs
--                        Name, rrdata.rs RrData, parser.rs and structs.rs Packet, builder.rs Builder.
--                        A function keeps its name; `From` and `Into` are `of_u16`, `to_u16` and the
--                        like, a cast of an enum is `to_u16`, `enum Type` is RecordType. Each loop is
--                        a function of its own (`scan_loop`, `txt_loop`, `parse_questions`,
--                        `parse_records`, `parse_additional`, `write_parts`).
--   Dns                  src/dns.rs: `dns_parse`; Dns.Resolver `lookup_on`, Dns.Servers the texts that
--                        list name servers, Dns.Lookup the lookups where the system has none of its
--                        own (`start_lookup`), Dns.Native what the lookups of macOS find, with the memory of a
--                        request (an address holds a request until its box ends). Answer,
--                        Tried and Found are proofs.
--   TimerBuilder         src/builder.rs.
--   Wheel                src/wheel.rs. `self` is passed on and returned; `set_timeout` is split at the
--                        choice of the slot (`schedule`), and a round of the loop of `poll` is
--                        `advance` or `visit`. `remove_slab` and `cancel` are in Wheel.Cancel,
--                        `set_timeout` and `move_timeout` in Wheel.Insert, `poll` in Wheel.Poll, each
--                        with the proofs below it; Wheel.Linked has the invariant (`IsWheel`).
--                        Wheel.Spec says what the wheel promises, with no slots and no lists, as
--                        steps of a table of timers, and Wheel.Refinement that runs of calls keep it.
--   Poller               src/poller.rs: `PollerInt`, and `fiber_id` of src/runner.rs. Ids, Queues,
--                        Timers, Drained and Rounds are proofs.
--   Fiber                src/fiber.rs: the sockets of fibers with their TLS loops (Fiber.Sock), and
--                        what the runner keeps of a fiber (Fiber.Int).
--   Runner               src/runner.rs: `RunnerInt`. `self` and the poller of the thread are one
--                        state (`World`). Runner has `register`, the timers and the small operations;
--                        Runner.Socket `read`, `write`, `read_bufs` and `write_bufs`, with the loop
--                        that they share (`retry`), which the source writes out; Runner.Waits
--                        `accept_tcp`, `join_main` and the like; Runner.Children `child_iter`;
--                        Runner.Steps `step_into`, `stepped_out` and `have_addr`; Runner.Loop `run`;
--                        Runner.Resolve `new_resolve`; Runner.Tls the handshakes; Runner.Context
--                        `context_function`; Runner.Start `start_runner` and the table of src/tls.c;
--                        Runner.Api the calls that start a fiber, and Runner.Handles the other
--                        methods of `Runner`, `Fiber`, `FiberRef` and `TimerRef`. Places, Registered,
--                        Timers, NewTimer, Counts, Finished, Taken, Refused and Shook are proofs.
--   Prelude              what the others share: tests, lists, bits, slices, text, outcomes.
--   Tests                runs on concrete values, and the theorems at concrete inputs.
--
-- How the code is modelled. A byte is a number below 256 (`IsByte`) and a slice a list of bytes. A
-- call comes to an `Outcome`: `ok`, `err`, `panic` (an index or a slice out of range, `unwrap`,
-- `expect`, `panic!`), or `stuck`, which no Rust call does: a loop of the model ran out of fuel. A
-- mutable buffer is returned with what was written to it. A u16 or u32 is a number, and a shift or a
-- cast that drops bits has its `%` written out. An `Instant` is its nanoseconds from some origin, a
-- `Duration` its nanoseconds, a `Token` its number, a `usize` has 64 bits.
--
-- Fuel. `Name::scan` has `scan_fuel` rounds: each round of its loop either shortens what is left of
-- the slice or lowers the bound on pointers, so that `scan` is never `stuck` on bytes; printing a
-- name needs no more. The strings of a TXT record take a byte a round at least, so their number of
-- bytes is enough. `Wheel.Poll.poll` and `Poller.poll` take their fuel as an argument.
-- `rounds` (Wheel.Poll.Polled) is enough for a call of the former, and the latter ends with more fuel
-- than the wheel has tokens and that many rounds for each call. The loops on a socket, `child_iter`, the
-- handshakes and `run` wait for others or empty a queue that others fill: their fuel is an argument,
-- and what is proved of them holds for every fuel.
--
-- Parameters. `BigEndian` (DnsParser.ByteOrder) is the crate byteorder, with its documented results on
-- long enough buffers; `SlabApi` (Wheel.Slab) is the crate slab: what is inserted is found under a
-- token that had no entry, and no call touches another entry. `NetApi` and `Registry` (Fiber) are what
-- mio and native_tls do with a socket and answer to a registration; `Names` (Dns.Lookup) is what binds
-- and sends the datagrams of lookups; `Switch` (Runner) is what a fiber does until it steps out, and
-- what is done until it is resumed, on any state, and `Body` (Runner.Context) what the function of a
-- fiber does from its call to its return. The answers of the clock, the events of mio, the results of
-- the lookups, the random ids, the contents of the files of the system and the parsing of an address
-- are arguments.
--
-- Not modelled: the switching of stacks itself, the message port, the thread and the channel of the
-- macOS resolver (they hand the address of a request on), the pointers of a thread to its poller
-- (`Poller::new` and its `Drop`), the texts of errors, and the largest `Instant`, tick and generation
-- there can be.
pub mod Prelude
pub mod DnsParser
pub mod Dns
pub mod TimerBuilder
pub mod Wheel
pub mod Poller
pub mod Fiber
pub mod Runner
mod Tests
