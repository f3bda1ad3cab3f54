-- ===== src/Lib.antt =====
-- The verification library of fernbank's TypeScript: the backend for the browser (bff/src) and the
-- web client (frontend/src).
--
-- The server stands between the browser and the banking backend. It keeps the backend's tokens: the
-- refresh token in an encrypted cookie, the access token in a cache of its own process. A request
-- passes the session middleware, the CSRF guard and a controller inside the cookie interceptor; the
-- controllers call the backend through the backend client, which takes a token from the cache,
-- refreshes it when it runs out and tries once more after a 401. The filter turns errors into
-- problem documents.
--
-- Base: numbers, lists, texts and dictionaries (an insertion-ordered Map or object is a list of keys
--   with values; every operation on it looks at the first occurrence).
-- Bff.Configuration: bff/src/config/configuration.ts.
-- Bff.Http: bff/src/common/problem-detail.ts, upstream-http-exception.ts, and the values of axios and
--   express. An error is a value of `Exception`.
-- Bff.World: the state that the services share, the environment, and the monad of the handlers.
-- Bff.Crypto: bff/src/session/session-crypto.service.ts. Bff.TokenCache:
--   bff/src/session/access-token-cache.service.ts and bff/src/common/jwt.ts; its Machine interleaves
--   the parts of its methods between awaits, one event per part.
-- Bff.BackendClient: bff/src/backend-client/backend-client.service.ts.
-- Bff.Session: bff/src/session/session.service.ts, session-context.middleware.ts,
--   session-cookie-sync.interceptor.ts, require-session.ts and the cookies of bff/src/common.
-- Bff.Common: bff/src/common/correlation.ts and client-ip.ts. Bff.Csrf: bff/src/csrf/csrf.guard.ts.
-- Bff.Auth: bff/src/auth. Bff.Proxy: bff/src/proxy. Bff.Dashboard: bff/src/dashboard.
-- Bff.Notifications: bff/src/notifications/notification-poller.service.ts; its Subscribers counts the
--   streams of each poller.
-- Bff.Filter: bff/src/common/problem-detail.filter.ts, bff/src/rate-limit/throttler-options.ts and the
--   order of bff/src/app.module.ts. Bff.Warmup: bff/src/warmup and bff/src/common/health.controller.ts.
-- Web.Iban: frontend/src/lib/validation/iban.ts, on UTF-16 code units. Web.Activity:
--   frontend/src/lib/statement/activity.ts. Web.IdleLogout: frontend/src/hooks/use-idle-logout.ts, with
--   its timers explicit. Web.Warmup: frontend/src/hooks/use-backend-warmup.ts.
-- Web.Api: frontend/src/lib/api/client.ts and errors.ts, frontend/src/lib/auth/csrf.ts. Web.Forms: the
--   schemas of frontend/src/lib/validation, each as the list of the issues that it finds.
-- Web.Auth: frontend/src/lib/auth/auth-context.tsx and frontend/src/proxy.ts.
-- Web.Format: frontend/src/lib/format/money.ts and frontend/src/lib/statement/spend.ts.
-- Web.Queries: the hooks of frontend/src/hooks/queries and mutations. Web.Downloads:
--   frontend/src/lib/env.ts, and correlation.ts, bff-dashboard.ts and download.ts of frontend/src/lib/api.
-- Web.Transfer, Web.Payees, Web.Profile, Web.Home and Web.Statement: the pages of
--   frontend/src/app/(app), Home that of the dashboard and Statement that of an account; Web.Transfer.Machine, Web.Payees.Pages
--   and Web.Profile.Mfa run theirs over inputs and answers in any order.
-- Web.SignIn: frontend/src/components/auth and auth-gate.tsx. Web.Shell: the rest of
--   frontend/src/components/app-shell, the pages for errors and
--   frontend/src/hooks/use-transaction-notifications.ts.
-- Bff.Tests and Web.Tests: concrete inputs.
--
-- A handler is a function on `World`: the shared state, its own response, and the requests it has sent.
-- At an `await` it hands the shared state to the environment, an arbitrary function, and goes on from
-- what that gives back; so what other requests, timers and the backend do meanwhile is arbitrary.
-- Node's cipher, JSON, random values, the clock and the network are parameters of the model, with
-- records of laws (CryptoLaws, CookieLaws) where a theorem needs their documented behaviour. No loop
-- needs fuel: each is over a list or a text. Names are in snake case: `resolveAccessToken` is
-- `resolve_access_token`.
--
-- A page is its state, its handlers cut at their awaits, and what it shows: the list of its texts and
-- controls (Web.View). The user can press or fill in the controls on display and nothing else; what the
-- browser, the form library, the query library and the chart library do is an argument, with a named
-- law where a theorem needs it; a call of a mutation is pending until its answer is there. Classes,
-- layout, icons and the messages of single fields are left out.
-- In the forms a JavaScript number is a value of `Web.Forms.Number`; the function `Number`, which reads
-- a text as one, is an argument.
--
-- Not modelled: log lines, the throttler's counting and the decorators that validate a body, which are
-- packages; the time limit of a request, which is one way to get no reply; the framework's side of the
-- server-sent events; the component kit of frontend/src/components/ui, the providers and the layouts,
-- which are generated or markup; the Java backend, whose answers are the environment's.
pub mod Base
pub mod Bff
pub mod Web
