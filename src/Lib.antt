-- ===== src/Lib.antt =====
-- commercialRCHproxy stands between a point of sale and an RCH fiscal printer, forwards the bytes of
-- both directions, and reconstructs from a copy of them what was printed. This library models parts
-- of it in cubical type theory.
--
-- src/commercialrchproxy/rch/framing.py (Framing.antt): `RCHStreamFramer` cuts a byte stream that
-- arrives in arbitrary chunks into ACK bytes and frames STX AA LLL class DATA seq BCC ETX.
-- - Framing/Types: the events, issues and the result. Framing/Scan: the searches for a control byte
--   and the branch that a round of `_process` takes, as a value of `Action`. Framing/Bcc:
--   `calculate_bcc`, the checksum field and `build_frame`. Framing/Framer: the state of the framer,
--   a record with the source's fields, `__init__` and the methods that append events and issues.
--   Framing/Process: `_process`, `feed`, `finish` and `frame_stream`; Framing/Assess:
--   `assess_framing`. A method is a function from the framer to the framer, an exception a value.
-- - Framing/Spec: the frames of a whole stream read byte by byte, with no buffer and no events, which
--   the framer is compared with. Framing/Skipping, Decisions, Moves, NewFrames, Tally, Reading,
--   Rounds, Segmentation, Feeding and Finishing prove the refinement, a method at a time, and
--   Framing/Contract, Assess, Checksum and RoundTrip, with BuiltStream, state what follows.
--
-- src/commercialrchproxy/capture/jobs.py (Capture.antt): `CapturedJob` keeps a bounded copy of the
-- bytes of a connection, with the chunks they arrived in.
-- - Capture/Types: the records. Capture/Jobs: `append`, `mark_local_write_drain` and `finish`, each as
--   the composition of its assignments. The clock and the digest are inputs of `append`.
-- - Capture/Stream: the observed traffic, bytes that carry their direction, and sequences of calls.
--   Capture/Traffic, Stored, Calls and Drains relate the two; Capture/Counting and Status are about
--   the transport status; Capture/Streaming about jobs that leave their payload to the live spool.
--
-- src/commercialrchproxy/capture/recorder.py (Recorder.antt): `JobCaptureManager` records what both
-- relay directions observe in one `CapturedJob`, and hands the spool's work to a worker through a
-- bounded queue. Modelled is a storage with `begin_live`, the one that streams.
-- - Recorder/Types: the manager, the queue and the worker. Recorder/Manager: `record`,
--   `mark_local_write_drain`, `finalize`, `_enqueue_stream` and `_mark_capture_degraded`.
--   Recorder/Worker: `_live_worker` and `_record_storage_failure`; whether an operation of the spool
--   raises is a choice of the step. Recorder/Steps: the interleavings, as a relation between managers;
--   the lock is held from a call's start to its end, also while its `put` waits. A cancelled task is
--   not modelled.
-- - Recorder/Progress, Sound, Flags, Calls, Working and Ending prove the invariant, Recorder/Published what
--   follows for a published capture, and Recorder/Blocking what a failed worker means with `abort`.
--   `work` runs the worker's steps on fuel; `steps_for` is enough for a queue.
--
-- src/commercialrchproxy/rch/receipt_parser.py (Receipt.antt): what the frames of a stream say of the
-- documents printed.
-- - Receipt/Patterns: the source's regular expressions, for the matcher of Regex.antt, which
--   backtracks as Python's `re` does on the constructs used. Receipt/Amounts:
--   `parse_printed_amount` and `_format_cents`. Receipt/Budget: `_SemanticBudget`. Receipt/Model
--   and Builder: the documents and `_ReceiptBuilder` with its states. Receipt/Fields: the lines of a
--   management document. Receipt/Commercial: the items and totals of a sale. Receipt/Assembly:
--   `_parse_documents`, a step for a frame.
-- - Receipt/Correlate: `_correlate_directions`. Receipt/Messages: the roles and messages of both
--   directions. Receipt/Counters: `_attach_response_counters`. Receipt/Issues:
--   `_bounded_result_issues`. Receipt/Chunks: `feed_bounded`. Receipt/Subtypes:
--   `_assign_document_subtypes`, whose copies Receipt/Copies is about.
--   Receipt/Protocol: `_parse_framed_copies`, `parse_protocol_copies` and `parse_protocol_chunks`, which
--   compose these parts with the framers; Receipt/Bounds is about the result, Receipt/OneChunk compares
--   the two entries.
-- - Receipt/Correlation reads the lists of `_correlate_directions` side by side. Receipt/Documents,
--   Kept, Boundaries and Sound are about the documents, Outline, Lockstep and Alike about what the
--   budget leaves unchanged, Digits and Cents about amounts, Support, Answers and Supported about
--   document numbers and Numbering about messages.
--
-- src/commercialrchproxy/parser/worker.py (Parser.antt): workers take the jobs of the spool, and write
-- documents for them. Parser/Job: the directory of a job as a record, its files as values, and the
-- operations on it under `.parser.lock`. Parser/Commit: `_commit_success` by its durable steps.
-- Parser/Workers: `process_job` as the steps that hold the lock and those between, of any number of
-- workers in any order. An operation gives the directory after each of its durable steps, and a worker
-- may be killed after any of them, or between operations. A UUID is a number not given out before.
-- `is_valid` of `Outputs` stands for the checks of the files that `parsed.json` lists.
-- Parser/Facts, Committing, Claiming, Owners, Publishing, Reporting, Interrupted and Sound prove the
-- invariant, and Fencing, FencedSteps and Leases what a lost claim means.
--
-- src/commercialrchproxy/proxy/streams.py (Proxy.antt): `pump` relays one direction. Proxy/Pump is its
-- loop over the answers of the sockets and of the recorder, which are inputs of each round, and
-- Proxy/Relay what it writes and counts whatever the recorder answers.
--
-- src/commercialrchproxy/proxy/session.py: Proxy/Session is `ProxySession.run`, over the answers of the
-- lock, the connections, the two pumps and the recorder; it gives the list of the session's actions and
-- its last state. Proxy/Observer has an observer of the actions that counts nothing but the attempts
-- to connect, and Proxy/Orderly is about their order; Proxy/PumpEnds and Delivered compose the session
-- with its two pumps.
--
-- src/commercialrchproxy/storage/counter.py (Storage.antt): Storage/Counter is `JobCodeAllocator`, with the
-- file of the counter as a value. Storage/Codes is about one allocation, Storage/Sequence about many.
-- Python refuses to read a number of more than 4300 digits; the model refuses its code instead.
--
-- src/commercialrchproxy/logging/structured.py (Logging.antt), in part: Logging/Queue is the handler
-- that drops the oldest record when its queue is full, Logging/Retention what it retains.
--
-- Common.antt has the lists, options, numbers and texts that the parts share.
--
-- Bytes are natural numbers; where a theorem needs that they are below 256, it says so. The loop of
-- `_process` runs on fuel, the number of buffered bytes: a round that does not break consumes at least
-- one. The loop of `feed` runs on the length of the chunk: a round takes at least one byte of it, as
-- the buffer has room. A text field is a list of code points. The text of a diagnostic is a value of
-- `Detail`, with the numbers that the source prints.
--
-- Not modelled: the dictionary views of the events, threads, sockets, files, and the packages the
-- source imports; the spool's files (storage/spool.py, files.py, manifest.py), the settings (config.py),
-- the XML 7 documents (rch/xml7.py), the rendering of documents (render), the tools and the command lines.
pub mod Common
pub mod Capture
pub mod Framing
pub mod Logging
pub mod Parser
pub mod Proxy
pub mod Receipt
pub mod Recorder
pub mod Regex
pub mod Storage
