-- ===== src/Lib.antt =====
-- A model of mono-sso, an OAuth2 single sign-on system in Go, and the theorems about it.
--
-- The program is three servers over two stores. sso-service (cmd/sso-service) keeps accounts,
-- clients, scopes, grants and refresh tokens in Postgres, and answers RPCs; sso-manager
-- (cmd/sso-manager) upserts clients, scopes and tenants for callers whose session it validates;
-- sso-provider (cmd/sso-provider, pkg/handlers) speaks OAuth2 to browsers and keeps sessions,
-- authorization codes and access tokens in Redis.
--
-- How the files correspond to the code:
--   Constants            pkg/constants/constants.go and cmd/sso-service/constants.go
--   Datastore.Tables     the rows of the schema in deployments/db/migrations, the statements that
--                        can fail, and the errors and results of the data-access code
--   Datastore.Account    pkg/datastore/account.go
--   Datastore.Upserts    what the upserts share: docs, surroundings, early returns
--   Datastore.Tenant, Client, Scope  pkg/datastore/tenant.go, client.go and scope.go
--   Datastore.Status     pkg/datastore/grpc.go
--   Service.State        what the RPC handlers share: the tables, the audit log of
--                        pkg/datastore/events.go, and what one call meets
--   Base64               the base64 codec that cmd/sso-service/authorization-server.go decodes with
--                        and pkg/datastore/client.go encodes with
--   Service.Scopes       cmd/sso-service/authorization.go
--   Service.Authorization  AuthorizeClient and GrantScopes of
--                        cmd/sso-service/authorization-server.go
--   Service.RefreshToken NewRefreshToken of the same file
--   Service.Activation   cmd/sso-service/mfa.go
--   Service.Account      cmd/sso-service/account-server.go
--   Service.Sessions     cmd/sso-service/session-server.go
--   Service.Reachable    the RPCs of cmd/sso-service as the steps of one state machine
--   Service.RefreshToken.Refinement, Runs  a map of accounts and clients to tokens, the abstract
--                        view of the token table, and its transitions
--   Manager              cmd/sso-manager/client-server.go and management-server.go
--   Manager.SelfRegister cmd/sso-manager/self-register.go
--   Cache.Redis          the commands of Redis that the code calls, as a record, and their laws
--   Cache.Ids, Purge     pkg/cache/cache.go (CreateID) and pkg/cache/purge.go
--   Cache.Local          a store in memory that satisfies those laws, for tests
--   Cache.Client         StartCacheClient of pkg/cache/cache.go
--   Oauth2               GenerateJWT and DecodeJWT of pkg/oauth2/jose.go
--   Oauth2.Keys          SetupOAuth2Jose, setupJWK and LoadOAuth2JoseFromURL of the same file
--   Session.Validator    pkg/session/session.go
--   Provider.Http        ClientIPsFromRequest and ReadJSONRequestBody of
--                        pkg/http-server/http-server.go, and the requests and responses of net/http
--   Provider.Messages    pkg/session/types.go and pkg/handlers/types.go
--   Provider.World       pkg/session/authorization.go and authentication.go: options, cache keys,
--                        cookies, and the session in the cache; the calls of sso-service
--   Provider.Static      pkg/handlers/static.go
--   Provider.Token       pkg/handlers/token.go
--   Provider.Authorization, Grants  pkg/handlers/authorization.go
--   Provider.Authentication, Activation  pkg/handlers/authentication.go
--   Provider.CodeFlow    the authorization code flow through two handlers and sso-service
--   Prelude              Boolean tests, lists, texts, signed integers, and the early returns of Go
--                        function bodies (Flow)
--
-- A table is the list of its rows, and a SQL statement is a function on these lists, written next
-- to its text. An Outage says which statements of a call come back with an error, and which rows
-- of a result cannot be fetched; the loops over rows then end early and report nothing. A handler takes
-- the state and returns its response with the new state; a transaction that is not committed
-- changes nothing. Each handler runs alone: the interleaving of two calls between their
-- statements is not modelled. Timestamps are signed integers, in seconds unless a comment says
-- nanoseconds; the count of a purge wraps around at 32 bits, as in the code.
--
-- Parameters stand for code outside the repository: Redis, go-jose, bcrypt, the crypto
-- packages, files and HTTP requests, the clocks, the ID generator, the random source, SHA-1,
-- SHA-256, the validator of docs, protobuf, the recaptcha, net/url, and the parsing and printing of
-- durations.
-- All loops are structural recursion on lists or strings, so that no fuel is needed.
--
-- Where the process ends by log.Fatalf, or nil is dereferenced, a handler returns none. Nothing sets
-- up the session validator of UpsertTenant, which is nil.
--
-- A handler of sso-provider works on the cache and on the state of sso-service, whose handlers it
-- calls; such a call may be answered, may run and lose its answer, or may not arrive. A response
-- keeps the first status that is written, and drops cookies that are set after it.
--
-- Not modelled: the configuration and the start-up of the servers, the transport and the page
-- template, which are input and output; the generated protocol code beyond its message types; and
-- the log lines other than audit events.
mod Prelude
pub mod Base64
pub mod Constants
pub mod Cache
pub mod Datastore
pub mod Oauth2
pub mod Service
pub mod Session
pub mod Manager
pub mod Provider
