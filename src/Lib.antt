-- ===== src/Lib.antt =====
-- Verification library of krabitls, a small TLS 1.3 and DTLS 1.3 client (krabitls/src).
--
-- The parts that are modelled, and how they work together. A DTLS datagram holds records. A record
-- in clear has the header of krabitls/src/dtls/framing.rs, a protected one the unified header of
-- krabitls/src/dtls/record.rs, whose record number is masked and cut to its low digits. The client
-- (krabitls/src/dtls/client.rs) recovers the number, opens the record, and drops it when the window
-- of krabitls/src/dtls/replay.rs does not accept the number. The content is handshake fragments, which
-- krabitls/src/dtls/reassembly.rs collects into messages, and acknowledgements, which
-- krabitls/src/dtls/ack.rs writes and reads. TLS records are sealed and opened by
-- krabitls/src/aead.rs, whose nonce and inner plaintext DTLS uses too, and the server's flight of
-- handshake messages is collected by krabitls/src/reassembler.rs. What it collected is parsed and
-- verified by krabitls/src/server_flight.rs, whose secrets and transcript hash come from
-- krabitls/src/hkdf.rs. Certificates are read element by element with krabitls/src/backends/tlv.rs,
-- and krabitls/src/identity.rs matches their names with a host name. The connection of
-- krabitls/src/connection.rs joins these: it reads the ServerHello with the parser of
-- krabitls/src/lib.rs, feeds the records of the flight to the buffer, verifies it, answers with the
-- flight of krabitls/src/client_flight.rs, and then seals and opens records under keys that key
-- updates rotate. krabitls/src/client/engine.rs dispatches what the data phase opens.
--
-- Files. Base and its children are shared: Boolean tests on numbers (Tests), lists measured by native
-- numbers (Lists, Index), Rust's Result (Results), binary digits (Bits, Masks) and big-endian bytes
-- (Bytes). The others follow the source, with its names:
--   Dtls/Replay         krabitls/src/dtls/replay.rs: ReplayWindow (new, accepts, mark); Replay/Once has
--                       the gate of DtlsClient::recv as `admit`.
--   Dtls/Framing        krabitls/src/dtls/framing.rs: PlaintextRecord::parse and write are parse_record
--                       and write_record, HandshakeHeader::parse and write are parse_header and
--                       write_header.
--   Dtls/Ack            krabitls/src/dtls/ack.rs: write_ack, write_ack_bitmap, parse_ack, and the
--                       iterator AckRecords as `next` and `collect`.
--   Dtls/Reassembly     krabitls/src/dtls/reassembly.rs: Slot (is_complete, add_range) and Reassembler
--                       (push, flight_complete, serialize_flight); the arena is a list of bytes.
--   Dtls/Hello          krabitls/src/dtls/handshake.rs: parse_server_hello.
--   Dtls/Record         krabitls/src/dtls/record.rs: EpochKeys::seal is seal, EpochKeys::open is
--                       open_sealed, in the steps check_header and open_body; reconstruct_seq.
--   Tls/Aead            krabitls/src/aead.rs: aead_nonce; Aead/Encrypt has encrypt_record_with, and
--                       Aead/Decrypt has decrypt_record_inplace_with and split_inner_plaintext.
--   Tls/Reassembler     krabitls/src/reassembler.rs: ServerFlightReassembler.
--   Tls/ServerFlight    krabitls/src/server_flight.rs: HsReader and parse_server_flight. Its child
--                       Verify has verify_server_flight and what it calls, Request the readers of a
--                       CertificateRequest, Chain extract_chain, SizeLimit
--                       peek_ee_record_size_limit of krabitls/src/reassembler.rs; the others hold
--                       proofs.
--   Tls/RecordKeys      krabitls/src/aead.rs: RecordKeys (derive, encrypt_record,
--                       decrypt_record_inplace).
--   Tls/ClientFlight    krabitls/src/client_flight.rs: the builders; Policies has build_flight of the
--                       three policies and append_finished.
--   Tls/HelloErrors     krabitls/src/errors.rs.
--   Tls/Hello           krabitls/src/lib.rs: parse_server_hello; its child Fields has the Reader.
--   Tls/Connection      krabitls/src/connection.rs: the states and ConnectionError. Its children Hello
--                       (read_server_hello_with_backend), Flight (feed_server_record_inplace,
--                       finalize_server_flight), Finish (finish_handshake, with a policy or without,
--                       encrypt_handshake_flight) and Data (the operations of the data phase) have
--                       the transitions; the others hold proofs.
--   Client/Errors       krabitls/src/client/error.rs.
--   Client/Data         krabitls/src/client/engine.rs: dispatch_data_record_inner and what it calls;
--                       its child Stream has a machine of one byte at a time, which the code's
--                       reassembly of post-handshake messages is compared with.
--   Keys/Hkdf           krabitls/src/hkdf.rs: hkdf_expand_label_prefixed, of which encode_label is the
--                       part before the backend is called.
--   Keys/Schedule       krabitls/src/hkdf.rs: TranscriptHash and the key schedules, under their names.
--   Certs/Tlv           krabitls/src/backends/tlv.rs: read_tlv.
--   Certs/Identity      krabitls/src/identity.rs: verify_hostname, dns_name_matches, and SanEntryWalker
--                       as next_entry and any_entry.
--   Certs/View          krabitls/src/traits/cert.rs: CertView; its method san is in Certs/Identity.
-- In each folder the file Tests runs the definitions on concrete inputs.
--
-- Conventions. A byte or a machine integer is a native number, and where the code casts or wraps, the
-- modulus is written out. A theorem says which inputs are of the width that the code's type has,
-- where it needs that. A byte string is a list. Code that changes its argument returns the new
-- value, also on its error paths where these leave something behind; of a buffer that is only
-- written to, the length is an argument and what is written is the result. `usize` has at least 32
-- bits, so sums of lengths of buffers do not overflow and the checked additions of lengths succeed.
--
-- Parameters. The AEAD is a `Cipher`, and `IsAead` states what the code relies on: encryption keeps
-- the length and makes a tag of 16 bytes, and decryption undoes it. The masker of record numbers is
-- any function from a sample to bytes. IsInPlace is a cipher whose buffer keeps its length when the
-- tag is wrong too. The witnesses use no-op ciphers, as the tests of the
-- source do.
--
-- The hash and HKDF are the record HkdfSha256 of the backend's functions; IsTotal is a backend that
-- does not fail, with outputs of the length asked for. A PreparedVerifier is the function that says
-- whether a signature of a message is valid, and the lengths of ML-DSA signatures are the record
-- MlDsaSigBytes. The parsers of IP addresses are functions. A cipher suite is the length of its keys
-- and a cipher for each key, and IsAeadSuite says that all of them are AEADs. A secret of a key
-- exchange is the function that derives the shared secret from the server's share, the size of an
-- ML-KEM ciphertext is a number, and a client's signer is the record ClientAuth, whose function of
-- the content includes what it draws at random; Hashes and Signs are a hash and a signer that do
-- not fail. Whether a verifier matches a certificate is an argument of finalize_server_flight.
--
-- Fuel. The loop of `bitmap_loop` gets the number of set bits, and clears one a step; `end_loop` gets
-- the length of the buffer, and moves by four bytes or more a step; the iterator of Dtls/Ack gets the
-- length of its entries, and each item takes 16 bytes; the loop of serialize_flight gets the number
-- of slots and one more, and each round takes one of them; the loops over certificates and over
-- extensions get the length of their input and one more, and move by four bytes or more a step, and
-- so do those over the names of a certificate, which move by two bytes or more. The loop over the
-- chunks of a flight gets the length of the flight, and every chunk has a byte; the loop over
-- post-handshake messages gets the length of the content and one more, and takes a byte a turn.
--
-- Debug assertions are not modelled: they panic in a debug build only. Where a theorem needs what
-- one of them asserts it has it as a hypothesis (the length of the shared secret of
-- handshake_secret); that of finish_handshake_with_policy bounds the flight that a policy of the
-- caller builds.
--
-- Not modelled: the client's state machines over sockets and timers, with the buffers of records that
-- are framed or queued, the writers of the ClientHello, the reader of certificates and the choice of
-- the trusted ones, the transcript that a failed verify_server_flight leaves, erasing secrets, and
-- the text of errors. Cryptography is third-party code.
pub mod Base
pub mod Dtls
pub mod Tls
pub mod Certs
pub mod Keys
pub mod Client
