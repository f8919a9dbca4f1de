-- ===== src/Lib.antt =====
-- WhatSignal, a bridge between WhatsApp and Signal, modelled component by component.
--
-- The program receives webhooks from WAHA (WhatsApp) and polls signal-cli, and forwards each message
-- to the other side. Webhook requests pass the rate limiter and the signature and replay checks
-- (cmd/whatsignal/security.go); the channel manager (internal/service/channel_manager.go) says which
-- WhatsApp session belongs to which Signal destination; the message service
-- (internal/service/message_service.go) routes polled messages, retries them and keeps those that
-- are pending in the database; the poller (internal/service/signal_poller.go) runs it; the session
-- monitor (internal/service/session_monitor.go) restarts WhatsApp sessions; calls of both services
-- go through the circuit breaker (pkg/circuitbreaker/circuit_breaker.go) and the retry loops
-- (internal/retry); log fields are masked (internal/privacy/masking.go).
--
-- The files, each with the code it models:
--   Base      texts, association lists for Go maps, Boolean tests, list lemmas
--   Limiter   RateLimiter, NewRateLimiter, cleanupLocked, AllowWithInfo of security.go
--   Webhook   verifySignatureWithSkew, WebhookReplayCache, requireProductionAdminToken of security.go
--   Breaker   CircuitBreaker of circuit_breaker.go: every locked section, Execute, interleavings
--   Channels  ChannelManager of channel_manager.go: NewChannelManager and the lookups
--   Retry     Retry, RetryWithPredicate, calculateDelay of internal/retry/backoff.go, and the error
--             classes of internal/retry/classifier.go (Retry/Classifier)
--   Dispatch  determineDestinationForSender, the workers of PollSignalMessages, and
--             ProcessPendingMessages of message_service.go, over the table pending_signal_messages
--             (internal/database/database.go, internal/database/queries.go); the in-flight markers
--             inProgressMessages (Dispatch/Markers); a poll as a whole (Dispatch/Polling)
--   Delivery  UpdateDeliveryStatus and the status ranks of message_service.go, over the table
--             message_mappings
--   Poller    validateConfig, Start, Stop and pollWithRetry of signal_poller.go
--   Sending   sendMessageToWhatsApp and shouldRestartWhatsAppSession of internal/service/bridge.go, and
--             hasAllowedExtension of internal/media/router.go
--   Mappings  the table message_mappings of internal/database/database.go as its callers see it: plain
--             mappings in the order of their insertion, and one operation for each query
--   Store     internal/database/encryption.go and the same operations on encrypted rows with their
--             lookup hashes, beside those of Mappings (Store/Refinement)
--   Bridge    the handlers of internal/service/bridge.go over the message table: from WhatsApp
--             (Bridge/Forwarding), from Signal (Bridge/Resolving, Bridge/Replies,
--             Bridge/GroupReplies, Bridge/Handlers), and receipts
--             (Bridge/Receipts). The calls of the clients are a log in the state
--   Contacts  internal/service/contact_service.go and group_service.go with their tables and the
--             circuit breaker, and their syncs (Contacts/Sync)
--   Envelopes ConvertRestMessages of pkg/signal/client.go, which makes the messages that the bridge
--             handles
--   Server    handleWhatsAppWebhook of cmd/whatsignal/server.go: the checks of Webhook, the events
--             (Server/Events), and the bridge behind them
--   Media     pkg/media/handler.go and validate_url.go: the URL checks (Media/Urls), the kinds of files
--             (Media/Files) and the cache (Media/Cache)
--   Paths     internal/security/path.go
--   Config    LoadConfig of internal/config/config.go (Config/Checks, Config/Loading)
--   Waha      pkg/whatsapp/client.go: requests through the breaker, the wait for a session
--             (Waha/Sessions) and the sends (Waha/Sends). A wait takes at most 61 rounds
--   Monitor   the checks of session_monitor.go
--   Masking   internal/privacy/masking.go
--
-- How the code is written down. A struct is a record, a method that runs under its mutex a function
-- on the record, and interleavings are runs of such functions. The clock is an argument; times and
-- durations are natural numbers of nanoseconds, so wall-clock values before the epoch are out of
-- scope. The uint32 counters of the breaker wrap around at 2 ^ 32. A Go string is its list of bytes;
-- ToLower is that of ASCII letters, so the few other characters that Go lowers to ASCII letters are
-- out of scope. A Go map is an association list whose order stands for the order of iteration, which Go leaves open.
-- Loops over attempts recurse on the rounds left, which start at the number of attempts, so they
-- never run out before the code does. float64 is a parameter of the delay, as are the HMACs and
-- SHA-256 of the webhooks, the bridge that forwards a message, the answers of WAHA and of the
-- database's history, and whether database statements succeed. Lookup hashes stand for their IDs.
--
-- What a handler of the bridge meets, such as whether its n-th read or insertion of the database
-- succeeds, what its sends return and the clock, is one record of conditions that it takes; the
-- calls that it makes are appended to a log. AES-GCM, base64, HMAC and SHA-256 under the message
-- store are a record whose laws are those that Go documents, with the usual assumption that no two
-- IDs have the same HMAC. Rows come in the order of their insertion where a query sets no order.
--
-- Not modelled: routing, middleware and health pages, the HTTP transport, signal-cli's client and
-- WAHA's session manager, the derivation of the encryption keys, the retries of statements, the
-- watcher of the configuration file and the settings of tracing, the WebSocket loop of the poller,
-- and metrics, tracing and logging other than the masking. They are input and output, or calls of
-- libraries, or not reached yet.
pub mod Base
pub mod Breaker
pub mod Channels
pub mod Limiter
pub mod Retry
pub mod Masking
pub mod Waha
pub mod Config
pub mod Paths
pub mod Media
pub mod Monitor
pub mod Webhook
pub mod Delivery
pub mod Dispatch
pub mod Poller
pub mod Sending
pub mod Mappings
pub mod Store
pub mod Bridge
pub mod Contacts
pub mod Server
pub mod Envelopes
