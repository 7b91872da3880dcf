-- ===== src/Lib.antt =====
-- Stellance, a marketplace for freelance work with an escrow on the Stellar chain: the backend, in
-- stellance/backend, and what its pages compute, in stellance/frontend.
--
-- Parts and files
--   Base, Table, World    shared helpers; a database table as a list of rows; the state that the
--                         services share, and actions on it that may throw
--   Schema                stellance/backend/prisma/schema.prisma: a record for each model, a data
--                         type for each enum
--   Notifications         stellance/backend/src/notifications/notifications.service.ts: the rows,
--                         and the live streams, one rxjs subject to a user
--   Escrow                stellance/backend/src/escrow/escrow.service.ts: the client of the escrow
--                         contract on the chain, with the loop that waits for a transaction
--   Contracts             stellance/backend/src/contracts/contracts.service.ts: Loading has the
--                         reads, Create the endpoints create and confirmFund, Milestones those on
--                         milestones, Disputes dispute, resolveDispute and cancel
--   Contracts/Ledger      the specification of the contract service, a state machine on jobs,
--                         contracts, milestones and payments. Refinement shows each endpoint to
--                         follow it, Balance and Lifecycle what holds along its steps, and
--                         Service, Access and Endpoints what that gives for the endpoints
--   Auth                  stellance/backend/src/auth/auth.service.ts: login and registration;
--                         Rotation has refresh, revokeRefreshToken and logoutAll; Sessions,
--                         Refresh, Race and Registration have what they promise
--   Users, Jobs, Paging   stellance/backend/src/users/users.service.ts,
--                         stellance/backend/src/jobs/jobs.service.ts, and the pages that both cut
--   Payments              stellance/backend/src/payments/payments.service.ts: balances and
--                         history, Earnings, Withdraw; Double has its floats, RoundTrip and
--                         Nearest the reading of a printed amount
--   Http                  what precedes a handler: the guards and strategies of
--                         stellance/backend/src/auth, Query for the texts of a query, Validation for
--                         the decorators of the DTOs
--   */Controller          the handlers of the six controllers, stellance/backend/src/*/*.controller.ts
--   App                   stellance/backend/src/main.ts and app.service.ts: the checks at the start
--   Api                   all routes behind the global guard, and the events that reach the backend
--                         in any order. Writes is the interface of an invariant: what each write of
--                         a service must keep. Sessions, Accounts, Dealings and Requests carry it to
--                         every request; Amounts, Balance and Blocked are invariants by it;
--                         Calls and Guard say what a route does and who gets to it
--   Frontend/Wallet       stellance/frontend/lib/stores/walletStore.ts and the tasks of
--                         stellance/frontend/hooks/useStellarWallet.ts; Hook has its steps, and
--                         Reconnect, Stale and Connects what they come to
--   Frontend/Format       stellance/frontend/lib/api/payments.ts: amounts and hashes as texts
--   Frontend/Jobs         stellance/frontend/lib/api/jobs.ts, with the pages of
--                         stellance/frontend/app/(dashboard)/jobs/page.tsx; Browse is what it shows
--   Frontend/History      stellance/frontend/components/payments/TransactionHistory.tsx; Credits is
--                         how it shows the history of the backend
--   Frontend/Contracts    stellance/frontend/app/(dashboard)/contracts/page.tsx; Mine is whose
--                         contracts it shows
--   Frontend/Login        stellance/frontend/app/(auth)/login/LoginForm.tsx and
--                         stellance/frontend/lib/api/auth.ts; Redirect is where a login leads to
--   Demo, */Tests         a small deployment, and the theorems applied to it
-- The contract service calls the escrow service and then writes the database; it creates a
-- notification for every change, which the notification service also sends to the live stream.
--
-- How the code is modelled
--   A method is an Action: a function of the World that returns or throws and gives the next World.
--   What was written before an exception stays, except in a transaction (`$transaction`). A method
--   name is kept in lower case with underscores: confirmFund is confirm_fund. A method whose guards
--   come first has them in a function check_ of its own. Promise.all runs its parts in order.
--   Row ids, hashes, keys and texts are strings. Amounts are counts of stroops, the Decimal(18,7) of
--   the database times 10^7. Where the code turns a stored amount into a float and prints it, the
--   model prints the stroops; below 2^51 of them, 225 million lumens, these are the same digits.
--   Tables are lists, newest first, which is the order of createdAt. Unique indexes are checked; foreign keys are not, and a relation
--   that is missing is an error of the database client.
--   The chain's servers, Horizon, the configuration and uuid() are the record Env: any functions.
--   Requests are numbered, so that a server may answer differently each time. Signing and building a
--   transaction add nothing to the invocation that it carries.
--   So are argon2, the hash, the random tokens, the clock and the signing of access tokens, in the
--   record Crypto, and Horizon's accounts and payments, in the record Horizon. A check of a password
--   is any test, and two tokens may have one hash, which the unique index refuses.
--   refresh is in two halves, check_refresh and rotate, so that two requests can be interleaved.
--   parseInt and parseFloat read the texts that the configuration and WithdrawDto allow. The amount of
--   a withdrawal is a double: Payments/Double rounds as parseFloat and toFixed(7) do, on the exponents
--   -1074 to 971 that a double has, which bound its loops. Which amounts a payment takes is a test of
--   Horizon's record, and withdraw_ok asks of it that 0 stroops are none. The numbers of a query are
--   exact decimals. So are the amounts of a body, which their columns round to seven decimals; the
--   decimals that @IsNumber counts are those of the number, with an exponent or without. The case-insensitive search of the database is an argument.
--   The loop on getTransaction is recursion on the 20 attempts that the code itself allows.
--   The text of an SDK's error is left out of the messages that quote it.
--   The object of decisionMap is taken to have its three names only.
--
--   A controller's handler gets the user that the guard found. A body comes with fields of the right
--   types, as the framework transforms it, and then passes the decorators of its DTO or is a 400.
--   The check of an access token's signature and expiry, of an email and of a UUID are the record
--   Framework: any functions. One request runs after the other, each to its end.
--
--   A page of the frontend is its wallet store and the tasks that wait, and an answer to a task is an
--   event. React runs the cleanup of an effect whose dependency has changed before the next answer
--   comes. Amounts are printed from the exact decimal, where the code has a float.
--
-- Not modelled: the generated database client; the escrow contract itself, in Rust; of the frontend,
-- the mark-up, the other forms and pages and the clients that only call an endpoint; the set-up of the framework (headers, CORS, Swagger, the port). Log messages, timestamps and the status
-- of an answer that is no exception are left out.
pub mod Base
pub mod Table
pub mod Schema
pub mod World
pub mod Notifications
pub mod Escrow
pub mod Paging
pub mod Users
pub mod Auth
pub mod Payments
pub mod Jobs
pub mod Contracts
pub mod Http
pub mod App
pub mod Api
pub mod Frontend
pub mod Demo
