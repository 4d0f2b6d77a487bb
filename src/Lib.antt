-- ===== src/Lib.antt =====
-- deManage keeps a household's money: cards and their invoices, expenses, piggy banks and assets.
-- This library models the core of its backend, the part that decides what a card is charged and
-- when an invoice is closed, what a limit lets pass, when a piggy bank is debited and what an asset
-- amounts to. The source stands in backend/src; each function keeps its name, in snake case.
--
-- CivilDate is lib/civil-date.ts. A day key, the text YYYY-MM-DD, is the record of its three
-- numbers; a JavaScript Date is the number of its milliseconds since the start of the year 0, so
-- that dates of every four-digit year are natural numbers. CivilDate.Years is the calendar behind
-- Date.UTC and its inverse, with its reading of the years 0 to 99 as 1900 to 1999; an `IsFull` year
-- is one from 100 on, where that reading does not apply. CivilDate.Zone says what is relied on of
-- the time zone database, which is a parameter: an instant from the year 101 on has a valid day,
-- and noon UTC of a day is on that day.
--
-- CivilDate.Text is the text of a key in the same file, as the list of its character codes:
-- formatDayKey, parseDayKey and what calls it. A value of a request is data with a case for each
-- type that the code tells apart; a number that is not a natural one comes with the text that
-- String gives of it.
--
-- Http is http/parsers.ts and lib/validate.ts, the parsers of days, dates, amounts and limits. An
-- amount is its number of cents. Services.Schedule is resolveSchedule of services/schedule.ts: the
-- fields of a request are parsed and laid over what is stored, undefined leaving a field and null
-- clearing it, and an error is the name of its message.
--
-- Billing.Calendar is lib/billing/calendar.ts, the closing days of a card. Its two loops visit 1200
-- months at most, as in the source; an error after the last is `none`.
--
-- Billing.Expense, Billing.Occurrences and Billing.Charges are lib/billing/charges.ts: the data,
-- how often an expense charges in a cycle, and how much. The loop over the months of a monthly
-- count has a round for each month, the loop over the months of a cycle a round for each day, since
-- every round moves on by a day at least. Identifiers are only compared, so they are numbers. A
-- month YYYY-MM is the number of months since the year 0, which orders as the text does. The
-- decimals of Prisma are the parameter `Decimals`; `IsExact` says that sums, differences and
-- products with whole numbers are exact, as those of the program's amounts are.
--
-- Billing.Plan is planCardBilling of lib/billing/plan.ts and currentCycleWindow of
-- lib/billing/cycle-window.ts. The variables of its loop are the record `PlanState`, a round is
-- `close_cycle`, and `apply_update` is what lib/billing/run.ts stores of the result. A round closes
-- a later day than the round before, so a round for each day up to the cutoff is enough.
--
-- Billing.Run is processUserCardBilling of lib/billing/run.ts, over the cards and expenses that its
-- queries return, and cardsWithUnclosedBilling of lib/billing/guard.ts. Billing.Committed is the
-- amount that getCommittedByCard of lib/expense-splits.ts enters for a card, with its open cycle
-- compared to what the planner closes next in Billing.Committed.Closing, and Billing.Retroactive
-- the two tests of lib/billing/retroactive-recurring.ts before an edit; its loop over days has a
-- round for each day of the closed history.
--
-- Splits is allocateByPercent and sumMoney of lib/money.ts and all of lib/split-allocation.ts. The
-- elements of a request are data with a case for each way the code reads them; the test
-- Math.abs(percent - 100) > 0.01, on JavaScript's numbers, is the parameter `number_off`. The maps
-- that assertCardLimits takes are functions.
--
-- Piggy is the ledger, the monthly debits, their activation and the goals of lib/piggy (ledger.ts,
-- auto-debit.ts, activation.ts, model.ts). The loop over the months of the debits has a round for
-- each month from the first to today's.
--
-- Piggy.Store, Piggy.Deposit and Piggy.Withdraw are lib/piggy/transactions.ts: the rows that a
-- movement reads and writes, and each of its guards. Piggy.Movements runs one on the rows of a user
-- under the lock, and rolls it back if it throws; its `run` is a history of such movements, one
-- request after the other, which is of the theorems and not of the code. Piggy.AutoDebitRun is
-- lib/piggy/auto-debit-run.ts, whose cycles are deposits of their own. An identifier is a primary
-- key, so that findFirst with further conditions tests the row of the identifier. Amounts pass
-- through JavaScript's numbers there and back unchanged, as amounts below 2^53 cents do.
--
-- Piggy.Interest is lib/piggy/interest.ts. The cursor of its loop is kept as the rows from it on,
-- with the balance before them. `RoundsDown` says what is relied on of the rounding: whole cents
-- are at most the value and less than a cent below it. The search for a weekday takes two steps
-- back at most; the ranges of a history are of one day at least, so a round for each day is enough.
--
-- Assets is lib/asset-accounting.ts: the order of the transactions, the check of a timeline, the
-- removal from the buckets of known and unknown cost and the accounting, before its decimals are
-- printed. Division and the rounding to twelve places are parameters without laws: what is shown of
-- quantities does not rest on them.
--
-- Patrimony is lib/patrimony-calc.ts with createPointCursor of lib/market/series.ts. A running
-- total is its steps that are not yet counted, in order, with the total of the others; a cursor is
-- the point it is on with those ahead. Patrimony.Rows is buildPatrimonyRows: the variables of its
-- loop are the record `Timeline`, and the loop has a round for each day from the base to the last.
-- The text of an amount and the parsing of a quote are left out: both are decimals.
--
-- Market is the rest of lib/market/series.ts: the range of a request, whether a cached series is
-- fresh, and its points with each day once. The map of the points is the list of its entries in the
-- order of their insertion. Two steps back from any day reach a weekday.
--
-- Prelude holds what these share: lists, integers, sums and counts over ranges of days. Tests holds
-- decimals and a zone that meet the laws, and runs at concrete cards and days.
--
-- Not modelled: the database and its transactions, the web server, sign-in, the requests to
-- providers of market data and the browser application, which are input and output around these
-- parts; the texts of notes; numbers that are not whole, negative or not finite as day numbers or
-- closing days, which the callers rule out; the RangeError of dayKeyToDate and dayNumber on a text
-- that is no key, since a key is a record here and the theorems take valid ones; days before the
-- year 0, at which addDaysToKey and addMonthsClamped stop here; and days after 9999-12-31, whose
-- texts of five digits of a year order otherwise than their numbers.
pub mod Prelude
pub mod CivilDate
pub mod Billing
pub mod Splits
pub mod Piggy
pub mod Assets
pub mod Patrimony
pub mod Market
pub mod Http
pub mod Services
pub mod Tests
