-- ===== src/Lib.antt =====
-- Verification of the backend core platform: an API gateway, an auth service and a notification
-- service, over a package that they share (packages/common).
--
-- The gateway (apps/gateway) takes HTTP requests and websocket connections. A request passes the
-- rate limiter and the permission guard of packages/common, and is sent on to a service; a
-- registration goes through the idempotency service on the way. A service throws errors that the
-- exception filter of packages/common turns into replies, and the gateway turns a reply that has
-- failed into an error again. The auth service keeps accounts, refresh tokens, password resets and
-- roles, and publishes an event for each registration; the notification service mails on that event,
-- works on the jobs of the mail queue, keeps notifications and publishes an event for each, which the
-- gateway pushes to websockets.
--
-- Files and what they model:
--   Base, Container       helpers: Boolean tests, lists, dynamic values, and JavaScript's Map and Set
--   External/Redis        the Redis commands on counters, by their laws, and an instance in memory
--   External/Table        a table of the database as Prisma gives access to it, by its laws, and an
--                         instance in memory
--   External/Links        a table of pairs with a composite key, in the same way
--   Common/Errors         packages/common/src/errors: error-codes.ts, service-error.ts,
--                         error-axios.ts (handleAxiosError), http-exception.filter.ts (catch)
--   Common/RateLimiter    packages/common/src/rate-limiter: RATE_LIMIT_LUA_SCRIPT, check, reset,
--                         buildKey, canActivate
--   Common/Permission     packages/common/src/permission: PermissionCache, getPermissions,
--                         PermissionGuard, TokenTypeGuard
--   Common/Pagination     packages/common/src/pagination: parsePagination
--   Common/Tokens         jwt.strategy.ts of both services: CombinedJwtStrategy
--   Common/JetStream      packages/common/src/nats/base-jetstream-consumer.ts: startConsumeLoop
--   Common/Encryption     packages/common/src/security/crypto.util.ts
--   AuthService/Sessions, AuthService/PasswordResets, AuthService/Accounts
--                         apps/auth-service/src/modules/users/users.service.ts: refresh tokens,
--                         password resets, and accounts with the code that activates them
--   AuthService/Auth      apps/auth-service/src/modules/auth/auth.service.ts: getDeviceData (Auth);
--                         issueTokens, login, refresh, logoutDevice, logoutAll (Login); register,
--                         verify, resendCode (Signup); forgotPassword, forgotPasswordVerify,
--                         forgotPasswordReset (Recovery)
--   AuthService/Roles     apps/auth-service/src/modules/roles/roles.service.ts: findOne and the codes and
--                         roles of a user (Roles); create, update, remove (Changes); assignRole,
--                         unassignRole (Membership)
--   Gateway/SocketRegistry, Gateway/Websocket
--                         apps/gateway/src/modules/websocket: the registry of sockets and the
--                         handlers of CoreGateway
--   Gateway/Idempotency   apps/gateway/src/modules/share/idempotency.service.ts, and `register` of
--                         client/auth-service/auth/auth-client.service.ts (Register)
--   Gateway/Clients       apps/gateway/src/modules/client: the other calls of
--                         auth-service/auth/auth-client.service.ts (AuthClient), those of
--                         auth-service/role/role-client.service.ts (RoleClient), and those of
--                         notification-service/notification/notification.service.ts
--                         (NotificationClient)
--   Gateway/NotificationEvents, Gateway/NotificationPush
--                         the folder events beside that client: the websocket handlers
--                         handleNotificationRead and handleNotificationReadAll, and the consumer that
--                         pushes created notifications
--   NotificationService/Notifications
--                         apps/notification-service/src/modules/notification/notification.service.ts
--   NotificationService/Mails
--                         mails/mails.service.ts, sendMailRegis of notification.service.ts, and the
--                         handler of jetstream/jetstream-consumer.service.ts
--   NotificationService/Requests
--                         jwt/strategy/jwt-auth.guard.ts: CombinedJwtAuthGuard, and the order of the
--                         guards in app.module.ts
--   NotificationService/Jobs
--                         jobs/jobs.service.ts: process and the listener for 'failed'
--   Flows                 what one service publishes and another one handles, taken together
-- Each Examples module applies the results at concrete inputs.
--
-- State is passed explicitly: a handler takes the state and returns the new one with its result and,
-- where it sends messages, its effects. Times are milliseconds, given to each operation. What is
-- thrown is a value of Thrown, in a Result. The Lua script runs as one step, as in Redis. Of other
-- handlers each is taken as one step too: interleavings of two handlers at their awaits are not
-- modelled. Every loop is a structural recursion, so no fuel is needed. Numbers are natural numbers;
-- where the source may go below zero the model writes out what happens.
--
-- The columns that the database fills by itself (updatedAt, assignedAt) are left out, and so is a
-- unique key that two requests race for. Identifiers, random texts, salts and times are arguments.
--
-- Not modelled: logging, wiring and configuration; a database that fails in the middle of an
-- operation; connections to NATS, and the set-up of streams and consumers; the retries of
-- BullMQ, of which the listener is told; findAll of the roles, whose order is the database's; a
-- request without the cookie of the device, whose id is always a text here; the JWT guards of
-- the gateway and of auth-service; the controllers, which hand their arguments on. Redis,
-- Prisma, argon2, JSON, the schemas of packages/contracts, the signing of tokens, scrypt and
-- AES, the mail transport and the texts that the JavaScript runtime computes are parameters.
pub mod AuthService
pub mod Base
pub mod Common
pub mod Container
pub mod External
pub mod Flows
pub mod Gateway
pub mod NotificationService
