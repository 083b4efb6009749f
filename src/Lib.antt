-- ===== src/Lib.antt =====
-- A model of kexcore-oidc, an OpenID Connect provider and client library in Go, with the theorems
-- that make its security decisions correct.
--
-- Parts and files. The provider is a set of plugins around shared helpers (pkg/storm) and a protocol
-- layer (pkg/protocol).
--   Base          lists, maps as association lists, texts, Boolean tests and the result type that
--                 all parts share.
--   OidcError     pkg/protocol/error.go: the protocol's error codes.
--   Client        the optional interfaces of a client (pkg/storm/shared) as one record; a field is
--                 `none` where the client does not implement the interface.
--   RateLimit     pkg/storm/ratelimit.go: Allow, cleanupLoop (one tick), Middleware, clientIP;
--                 RateLimit/Bucket is about one operation, RateLimit/Window about any sequence of
--                 requests and ticks.
--   Dpop          pkg/storm/plugins/dpop: Proof is util.go (ParseProof and its helpers), Cache is
--                 dpop.go (the caches, GenerateNonce, ValidateNonce, CleanupNonceCache, Middleware);
--                 Soundness, Eviction, Replay and Nonce are about them.
--   Keyset        pkg/protocol/keyset.go: FindMatchingKey; Keyset/Choice is its plain rule.
--   Verifier      pkg/protocol/verifier.go: Checks holds the single checks, Token the verification of
--                 access tokens and ID token hints, Assertion that of client assertions.
--   AuthRequest   pkg/storm/shared/authrequest.go: Params validates the parameters, Redirect the
--                 redirect URI; Scopes, Loopback and Registered are about them.
--   Grants        the handlers of the token endpoint. Binding is pkg/storm/shared/context.go and
--                 senderconstraining.go with the confirmation claim of
--                 pkg/storm/plugins/token/token.go, Endpoint is token.go and util.go of that plugin
--                 with the certificate check of pkg/storm/shared/clientauth.go, ClientAuth the rest
--                 of that file. Of token.go, DeviceCode is handleDeviceCode up to the creation of the
--                 tokens, Code handleAuthorizationCode, Refresh handleRefreshToken,
--                 handleClientCredentials and handleJWTProfile, Exchange handleTokenExchange, Checks
--                 what these test of a form, Plugin the state they share. Bound, Admission, Limit,
--                 Assertion, Polling, Exchanged, Reuse, Renewed, Bearer and Frame are about them.
--   Token         handleToken of token.go, which chooses the handler; Restricted is about it.
--   Issue         what makes tokens: Request is the requests and wrappers of types.go and util.go,
--                 Host the interfaces of pkg/storm/storage.go, Claims createIDToken and
--                 encryptIDToken, Opaque createAccessToken and ResolveToken of pkg/storm/token.go,
--                 Response createTokenResponseFromTokenRequest; Frame, Audience, IdToken and
--                 Resolve are about them.
--   Ciba          Redeem is handleCIBA of token.go; of pkg/storm/plugins/ciba/ciba.go, Object is
--                 parseCIBARequestObject, Authorize handleBackchannelAuth, Approval the approval page
--                 and its action; Store is the store they share, Duration the arithmetic of the
--                 time library. Redeemed, Begun, Spent and Once are about them.
--   Revocation    the handlers of pkg/storm/plugins/revocation and introspection; Encoded is about
--                 them.
--   EndSession    pkg/storm/plugins/endsession: Logout is endsession.go and util.go; Redirect is about
--                 the redirect after a logout.
--   Userinfo      pkg/storm/plugins/userinfo and pkg/protocol/userinfo.go: Info is the claims of a user
--                 and the JWT, Endpoint the handler; Jwt, Possession and Issued are about them.
--   Device        pkg/storm/plugins/device: UserCode and Approval are util.go and handleDeviceApproval
--                 of device.go; Consent is about the approval.
--   Tests         the definitions on concrete inputs.
-- A Go function `FooBar` is the definition `foo_bar`. A function that returns an error returns a
-- `Result`, and its early returns are `require` and `expect` in a do block, in the source's order.
-- A method that mutates its receiver takes and returns the receiver's record.
--
-- Time and numbers. Times are natural numbers of nanoseconds since the Unix epoch; `time.Now()` is an
-- argument. Times before the epoch are left out, so a claimed time that is absent is 0, and a
-- subtraction that would go below the epoch gives 0. A comparison `t.Before(now.Add(-d))` is written
-- `t + d < now`. Natural numbers are unbounded: the counts and sizes here stay far below 2^63,
-- and of the times that tokens claim only those from the epoch to 2^63 nanoseconds after it are
-- covered, where time.Unix and its conversions do not wrap. The lifetime of a CIBA request, a product
-- with a number that the client chooses, does wrap around as an int64 (Ciba/Duration).
-- Texts are strings of bytes. All recursion is structural, on a list or on the
-- number of retries that are left, so no fuel is needed.
--
-- Concurrency. The rate limiter and the DPoP plugin hold their mutex during each operation, so an
-- operation is one step, and the theorems about runs are about arbitrary sequences of steps.
-- The DPoP middleware parses a proof before it takes the mutex; as parsing reads none of the plugin's
-- state, the model has both in one step.
--
-- Parameters. The JOSE library, encoding/json, encoding/base64, net/url, net, doublestar, crypto/sha256
-- and the deployment's client store are records of functions: `Jose`, `Codec`, `Net`,
-- `Services`, `Jws`, `TokenCrypto`, `CibaLibrary`, `UserinfoHost`, and for the device
-- authorizations `DeviceStore` and
-- `ApprovalStore`. The
-- cryptographic layer of pkg/crypto, which calls these libraries, stands behind the same parameters.
--
-- The deployment. The handlers of the token endpoint and of the CIBA plugin run over one state of the
-- deployment, of a type that is a parameter; `TokenStore`, `CibaStore`, `ExchangeStore` and
-- `RevocationStore`, and `Logout` of the end session plugin, are the operations on it, and `IsKept`,
-- `CodeLaws` and `CibaLaws` what their
-- documentation promises. A handler is an `Action`: it returns the state also where it fails, since
-- what a Go handler wrote before an error stays written. A lookup of an authorization code may change
-- the state, as AuthRequestByCode is documented to invalidate the code, and the deletion of a request
-- and the update of a CIBA request may fail, which the handlers ignore or log.
--
-- Simplifications. A handler that keeps the client's object between steps looks the client up again by
-- its id, in a client store that does not change during a request. The extra claims of a request are
-- texts, where the source takes any value.
--
-- Not modelled: the authorization, PAR and client registration plugins, the rest
-- of the device plugin, the engine that registers routes, HTTP input and output, logging, auditing and
-- tracing, the client library pkg/client, and the examples.
pub mod Base
pub mod Issue
pub mod Token
pub mod Ciba
pub mod Revocation
pub mod EndSession
pub mod Userinfo
pub mod RateLimit
pub mod Dpop
pub mod Keyset
pub mod Verifier
pub mod OidcError
pub mod Client
pub mod AuthRequest
pub mod Grants
pub mod Device
pub mod Tests
