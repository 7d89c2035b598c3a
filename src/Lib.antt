-- ===== src/Lib.antt =====
-- A model of go-steam, a Go client of the Steam network, with its theorems.
--
-- A client dials a server of Steam and keeps a TCP connection (package connection). Packets carry a
-- length and a magic number, and once a session key is known, the package crypto encrypts each of
-- them under AES with a vector that carries an HMAC. The package protocol reads messages from the
-- packets, answers the encryption handshake, and reports what happens as events; the package steamid
-- holds the 64-bit identifiers of accounts that messages and users name. The package client puts these
-- together: it logs in with the package identity over the Web API of Steam (package api), asks it for
-- servers, connects to one, and logs on with the refresh token of its identity.
--
-- The files and the code:
--   * Base, with Base/Tests, Lists, Results, Effects, Bits, Binary and Decimal: bytes as lists of
--     numbers, Go's pairs of a value and an error, calls that change a world, bit operations on words,
--     encoding/binary, strconv.
--   * SteamId (steamid/steamid.go, steamid_bits.go), SteamId/Fields and Laws for the bit fields,
--     Patterns for the three regular expressions, Steam2, Steam3, Steam64 (steamid_2.go,
--     steamid_3.go, steamid_64.go), Parse for FromString, String and UnmarshalJSON with Parse/Values
--     for the Must variants, JSON and the query, and Bounds beside each form that is read.
--   * Crypto: Primitives for AES and HMAC, Pkcs7 (crypto/pkcs7.go), Cbc and Symmetric
--     (crypto/encrypt.go, crypto/decrypt.go), SessionKey (crypto/generate_session_key.go,
--     crypto/verify_signature.go).
--   * Connection: State (connection/state.go and the state of connection/tcp.go), Network for what
--     arrives and fails, Tcp for Send and Read (connection/tcp.go), with Tcp/Framing and Tcp/Reads,
--     and Dial with Dial/Laws for NewTCPConnection (connection/tcp.go, connection/dialer.go).
--   * Protocol: Message with Protobuf, Read, Write, RoundTrip and Layouts (protocol/read.go,
--     protocol/write.go), State (protocol/protocol.go, protocol/events.go), Handlers
--     (protocol/handlers.go, protocol/heartbeat.go), Multi (handleMulti), Dispatch (handleMessage,
--     readMessage, Run, Close) with Dispatch/Report for what the events say of the session, OverTcp
--     with the TCP connection behind the interface Connection and OverTcp/Run for Run on it, and
--     Heartbeat for the goroutines of the heartbeat: Heartbeat/Channels and Leak for their stop
--     channels (protocol/heartbeat.go, Close of protocol/protocol.go).
--   * Totp, with Totp/Code (totp/authentication_code.go, totp/device_id.go): the codes that a login is
--     confirmed with.
--   * Api: Params for the structs of the services, Transport (api/transports/transport.go), Http with
--     Http/Laws and Served (api/transports/http.go), Services for the methods (api/services),
--     Wiring for the API and its services (api/api.go), Lazy for the value behind each of them
--     (internal/lazy/lazy.go).
--   * Identity (identity/credentials.go): Pick for the guard types, Session for the types and for
--     beginning a session, Poll with Poll/Laws for the poll loop, Provider with Provider/Settled, Laws,
--     Invariant and Complete for the methods, OverHttp with the HTTP transport behind the interface.
--   * Client (client/client.go): Options for NewClient with its options, Auth with Auth/Laws and Done
--     for logging in, Servers with Servers/Laws for the loop over the servers, Connect with Connect/Laws,
--     Keeps, Rounds with Rounds/Login, and Handshake (client/connection.go), Logon with Logon/Laws
--     (client/login.go), Invariant for all methods together.
--   * Example (examples/steam-library-example/main.go): Saved for the session file, Guard for the
--     Steam Guard challenge, Login for the full login and Login/Simple for those of
--     examples/simple/main.go and examples/simple-client/main.go, Labels for the texts.
--   * Each Tests file applies the theorems at concrete inputs.
--
-- Functions keep the code's names in snake case. A Go integer is a natural number with its wrap
-- written out, an int32 the number of its 32 bits. A call that fails returns the error as a value,
-- and a handler of the protocol keeps what it changed before. Mutexes make the methods of the
-- connection and of the identity provider single steps, so the model runs them as such, in any order;
-- the goroutines of the heartbeat, which take no mutex, are steps of their own. A
-- call that leaves the program, over HTTP or to the clock, takes a world and returns the next one, and
-- the invariants let every call start in a world of its own.
--
-- AES, HMAC-SHA1, RSA, CRC-32, gzip, the random source, protobuf, JSON, HTTP, the clock, contexts, the
-- sort of the package slices, and the network are not part of
-- the repository: they are parameters, with what their documentation promises as laws of the records
-- Primitives and HeaderCodec. The connection is a parameter of the protocol, as the interface
-- Connection is in the code.
--
-- Bounds: the loop of handleMulti has a round for each byte of its data, and more rounds change
-- nothing. The recursion from a message into the messages packed in it has a depth, which the code
-- does not bound: a result that is not the model's error too_deep holds at every greater depth. Run
-- has a number of rounds, and so has the loop that polls for a refresh token, which ends as soon as
-- Steam issues one: a run that is over is the same with more rounds. Connect has a list of attempts,
-- each with the moment at which another goroutine calls Disconnect in it, at most once: before the
-- protocol is set, when Run has read a number of packets, or when the attempt is over.
--
-- Panics are values of the model: the errors nil_heartbeat and nil_protocol of a nil pointer, the
-- error ticker_panic of an interval that is not positive, and the outcome of a step of the
-- goroutines. They end the program, so what a caller would do with such an error is not meant.
--
-- Not modelled: the text of errors and of debug events, the time between two ticks, dates before
-- 1970, negative loads of servers, the JSON form of times (internal/unixtime), the generated code of
-- language but for message numbers, and of the examples the flags, what they print and their loops
-- over events.
pub mod Base
pub mod SteamId
pub mod Crypto
pub mod Connection
pub mod Protocol
pub mod Totp
pub mod Api
pub mod Identity
pub mod Client
pub mod Example
