-- ===== src/Lib.antt =====
-- boar-pack: packages for back-office applications on NestJS and React. This library models the
-- logic of the packages that decides something: who is logged in and for how long, who may do what,
-- what is logged, who is told of an outage, what is counted, and which sockets live.
--
-- Parts, and the files that they are translated from:
--
-- Auth: sessions (packages/users-backend/src: auth/auth.service.ts, jwt-auth, revoked-tokens).
--   Payload has the payloads and the rows of the table, Revoked the service over that table, Service
--   JWTAuthService.sign and AuthService.login and logout, Strategies the two `validate` methods,
--   History what a series of requests does to the table. Race has the states of a request to refresh
--   between its database calls. Accounts has users/users.service.ts, the checks of a password and of
--   an address, and the strategies of the logins. Cookies has the cookies and auth.controller.ts. Cleared, Rows, Rotation, Ending, Issuing and Admission are
--   proofs.
-- AuditLogs: the trail of changes (packages/users-backend/src/audit-logs). Service is
--   AuditLogBaseService; Replay has the calls of the service and is a proof.
-- Tokens: API tokens (packages/users-backend/src/tokens). Credentials has tokens.constants.ts, Guard
--   JwtAuthGuard of jwt-auth with its alternative authenticators, and TokenAuthGuard, Service the
--   making of a token and TokensAuthStrategy; Issued are proofs.
-- Policies: permissions (packages/users-backend/src: casl, users/users-editing.guard.ts). Ability is
--   CaslAbilityFactory, Guard PoliciesGuard, Editing UsersEditingGuard, Fields the interceptor of
--   selected fields, Switches the switches of permissions in
--   packages/users-frontend/src/components/Users/PermissionsList.tsx; Grants and Shown are proofs.
-- EventLogs: the log of requests (packages/users-backend/src/event-logs). Requests has the audit of
--   the service, the interceptor and the middleware, in the order in which Nest runs them. Store has the
--   other logs, the logger and the save; Once and Saved are proofs.
-- Telegram: packages/users-backend/src/telegraf/telegraf.service.ts over the settings of
--   packages/users-backend/src/settings; Events is SettingsService with what its
--   settings switch off, and Reading has proofs.
-- Monitoring: alerts (packages/liquidity-monitor-backend/src/provider-monitoring). Notify is
--   sendNotifications, Periods updateProblematicPeriods and checkProviderActivity; Backoff, Outage
--   and Opening are proofs.
-- Statistics: counters that are flushed to the database
--   (packages/liquidity-monitor-backend/src: quotes-statistic, users-connections-statistic) in Quotes
--   and Connections, and the interval of a timeline in Interval.
-- Sockets: Server is packages/users-backend/src/ws-auth/ws-auth.service.ts, Browser is
--   packages/common-frontend/src/tools/WebsocketClient.ts, Clients is
--   packages/common-backend/src/modules/websockets/websockets.clients.ts; Rounds, Liveness, Flushing,
--   Tidiness, Delivery and Reconnecting are proofs. Sending is the send of Clients and its listener of
--   messages; Unsettled and Lost are proofs.
-- Workers: the processes of a cluster (packages/common-backend/src/modules/cluster). Cluster is
--   ClusterService for one cluster, Clusters what it does for all of them, Config
--   ClusterConfigService; Names, Starting, Steps and Stopping are proofs.
-- Tables: packages/common-frontend/src/components/Table. Filters has getFiltersSearch of
--   tableTools.ts, Columns its walks over the columns, Query the keyword, the joins and
--   getTableDataQueryParams.ts, Sets the states of columns of useColumnsSets.tsx, Bulk the
--   selection of useBulkEditing.tsx and the two bulk buttons, Editing new, saved and deleted rows
--   (useCreation.tsx, useEditableTable.tsx); BulkSent, NewRows, Fields, Queries,
--   Hidden and Visibility are proofs.
-- Descriptions: packages/common-frontend/src/components/Descriptions. Sections has the sections of the
--   columns and their counts of errors, Entity the request of the entity and the save of a field;
--   Badges and InStep are proofs.
-- Cards: packages/common-frontend/src/components/List/List.tsx. Requests is its request, Editing its
--   handlers; Remembered and AsTable are proofs.
-- Uptime: packages/liquidity-monitor-backend/src/api-statistic. Service is ApiStatisticService and
--   several instances of it over one table; Bounds is a proof.
-- Tools: packages/common-backend/src/tools. VirtualColumns has the decorator of
--   virtual-column.decorator.ts and the patch of select-query-builder.extension.ts, Exceptions
--   typeorm.execption-filter.ts; Shared and Hydrated are proofs.
-- Imports: packages/common-frontend/src/components/ChangesModal. Modal has the state and the handlers
--   of ChangesModal.tsx, Conflicts the resolution in ConflictsTab.tsx, Diff the comparison of a file
--   with the export in Table/useImportExport.tsx, Order the order of the keys of an object; Reachable
--   has the steps of the modal; Reachable, Resolved, Origin and Sent are proofs.
-- Users has the parts of a user that several services read, Dict JavaScript's maps, and Base the
-- Boolean tests, equality as an interface, lists, results, and texts that are taken apart.
--
-- How the parts interact: the editing guard and the policies guard ask for the ability that
-- CaslAbilityFactory makes; the requests of Auth share one table of revoked tokens; the two halves of
-- a check in Monitoring read the same latest quotes.
--
-- State is passed along: an operation takes the state and returns it with its result. Handlers that
-- may throw return a Result. Texts are strings, times are milliseconds in natural numbers, and
-- objects used as dictionaries are association lists in insertion order. All loops of the modelled
-- code run over a list, so that no fuel is needed.
--
-- Taken as parameters: the tables of revoked tokens, of problematic periods and of settings, with what
-- their queries do (Auth/Revoked, Monitoring/Periods, Telegram/Settings); the library that signs and
-- verifies tokens, `ms`, the configuration and the users' repository (Auth/Runtime); CASL (Policies/Ability); the answers of
-- Passport and of the browser's and the server's sockets, as events (Sockets); Node's cluster module,
-- as events, and the hook of a cluster (Workers); the jar of cookies of a browser (Auth/Cookies); the tests for numbers and uuids (Tables); the CRUD
-- service of tokens, bcrypt, Joi and the guards of Passport (Tokens); the table of users, bcrypt and
-- the case of letters (Auth/Accounts); the dictionaries of relations, `Number` and `String` of a cell, and the library that
-- finds differences (Imports); the CRUD library and the table under an audit (AuditLogs);
-- PostgreSQL's ranges (Uptime); reflect-metadata and the filter of Nest (Tools).
--
-- Not modelled: failures of the database other than where a save is said to fail, and interleavings
-- other than in Auth.Race, Imports.Reachable and Sockets; console output; the SQL of the timelines;
-- React's rendering; clients generated from OpenAPI; wiring of modules, controllers and DTOs; the
-- hash and cipher libraries.
pub mod Base
pub mod Dict
pub mod Users
pub mod AuditLogs
pub mod Auth
pub mod Policies
pub mod EventLogs
pub mod Telegram
pub mod Monitoring
pub mod Statistics
pub mod Sockets
pub mod Workers
pub mod Imports
pub mod Tables
pub mod Tokens
pub mod Descriptions
pub mod Uptime
pub mod Tools
pub mod Cards
