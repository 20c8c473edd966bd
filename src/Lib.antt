-- ===== src/Lib.antt =====
-- A verification library for the reservation and payment platform: the API server under
-- apps/api/src/modules and the packages it shares with the web application. The language is
-- TypeScript; persistent state is in PostgreSQL tables behind repository classes.
--
-- The parts and the files that model them (a path without apps or packages in front is below
-- apps/api/src/modules):
--   Money: packages/shared/src/money.ts. Amounts are whole cents; `splitEvenly`.
--   SplitShares: apps/api/src/modules/bookings/split-calculator.ts, the shares of a split booking.
--   Wallet: apps/api/src/modules/wallet. Wallet.Store has the tables of the ledger and the holds with
--     the queries of wallet.repository.ts; Wallet.Allocation has `allocateAcrossOrigins` and
--     `allocateProportionally`; Wallet.Service has every method of `WalletService`. The proofs stand
--     in the other children: Ledger (sums), Solvency (the invariant), Debits, HoldTable, HoldChange,
--     Holds, PartialRelease, Credits, Refunds (Refunds.Left reads off the ledger what can still be
--     refunded), Accounts (the account of a user).
--
--   BookingStatus: bookings/booking-state-machine.ts, the states of a booking and the table of the
--     allowed steps; Paths has the sequences of allowed steps. The services that write a state, some
--     of them without the test of the table, are not modelled.
--   Slots: availability/slot-calculator.ts, the free slots of a court on a day, and the times of day
--     as text.
--   Lessons: academy/academy-scheduling.ts, when a lesson can take place; it takes its windows from
--     Slots.
--   LightIntervals: automation/light-interval-merger.ts, when the lights are on.
--   Bar: nextore, the bar. Bar.Store has its tables, with the wallet's tables as one field;
--     Bar.CashSession is `NextoreCashSessionService`, Bar.Accounts `NextoreAccountsService`,
--     Bar.Payments `NextorePaymentsService`, which debits and refunds through Wallet.Service. The
--     proofs stand in OneSession, Closing, CashDrawer, Accounts.Versions, Accounts.Closed and
--     Idempotent. Bar.EqualSplit is `previewEqualSplit` of split.service.ts.
--
--   Tariffs: pricing/tariff-resolver.ts and the quote of pricing.service.ts, the price of a booking.
--     Covers, Order and Winner are about the choice of the rule, Rounding about the price of a part.
--   Payments: payments/types.ts, payments.repository.ts and ensure-stripe-customer.ts, what the other
--     services use of the payment provider and of the tables of payments and users. The provider is
--     a parameter, a record of its calls; every request to it is recorded in the store.
--   Guarantees: bookings/booking-guarantee.service.ts, the organiser's guarantee of a shared booking,
--     over a hold of Wallet.Service or a saved card of Payments. Store has the table and the queries of
--     booking-guarantee.repository.ts. WalletBacked, PaidShares, Settled and
--     Course are about the hold, CardAnswers and CardBacked about the card.
--   CreditPacks: credit-packs/credit-pack.service.ts, the purchase of credits: a payment of Payments,
--     then a credit of Wallet.Service. Store has the tables and the queries of
--     credit-packs.repository.ts.
--   Shares: bookings/booking-share.service.ts, the payment of one share of a booking through its link,
--     from the wallet or by card, which then releases a part of the organiser's guarantee. Store
--     has the table with the queries of booking-share.repository.ts. Rows, Paid, Refusals and Once
--     are about the share's row, FromWallet about the payer's wallet.
--
-- Bounds. There are two loops on fuel. The one over the minutes of a day in Slots has as fuel the
-- number of minutes, which is enough for every positive step. The one that prints a number in
-- Slots.TimeText divides by ten at each turn; its fuel is one more than the number, which is enough
-- since a quotient is smaller than a number that is not zero. All other loops follow a list.
--
-- Conventions. An amount is a signed integer over the native numbers, a JavaScript number that may be
-- no integer is a `Number`, and an exception is an `err` with the code and the HTTP status of
-- `AppError`. A service method is an `Action`: it takes the store to a result and a store, and what
-- was written before an exception stays written, as in the source, where no method opens a
-- transaction. A conditional `updateMany` is one step. Identifiers are numbers.
--
-- The foreign keys of the tables are not checked: a row that is written for a wallet account, a user
-- or a booking that does not exist is accepted, where PostgreSQL throws. The services take these ids
-- from rows that they have read, or from the caller.
--
-- Parameters: the answers of the payment provider, luxon's conversion to local time, the order of ids
-- by `localeCompare`, the hash of a token, and the current time. The only currency is EUR.
--
-- Not modelled: HTTP routes, the external services (Stripe's client, terminals, mail, the legacy
-- booking system), notifications, logging, the web application, the creation of bookings and their
-- checkout, and concurrency between two requests, except where a method's conditional update is what
-- guards against it.
pub mod Prelude
pub mod Money
pub mod SplitShares
pub mod Wallet
pub mod Tariffs
pub mod Payments
pub mod Guarantees
pub mod CreditPacks
pub mod Shares
pub mod BookingStatus
pub mod LightIntervals
pub mod Slots
pub mod Lessons
pub mod Bar
