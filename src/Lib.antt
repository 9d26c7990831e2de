-- ===== src/Lib.antt =====
-- Verification of the money core of Qift: the money policy, the fee and tax engines, the financial
-- ledger and settlement, from the order that is paid to the batch that is executed, remitted to a
-- merchant and stated, refunds of merchant invoices and the treasury's reconciliation; and of the
-- references of records, the roster file of corporate gifting and phone normalisation.
--
-- Parts and files (paths from the root of the repository):
--   Money, Money/Rounding           src/fees/money.ts
--   Fees, Fees/Charge               src/fees/fee-engine.ts
--   Tax, Tax/Rounding, Tax/Breakdown
--                                   src/fees/tax-engine.ts
--   Ledger                          src/financial/financial-events.ts,
--                                   src/financial/financial-ledger.service.ts and
--                                   src/financial/order-ledger.ts
--   Settlement/States               src/settlement/settlement-states.ts and
--                                   src/settlement/settlement-receivable-states.ts
--   Settlement/Policy               src/settlement/settlement-approval-policy.ts
--   Settlement/Calculator           src/settlement/settlement-calculator.ts
--   Settlement/Store                the tables of prisma/schema.prisma that settlement reads and
--                                   writes, as lists of rows (Store/Rows) in one record
--   Settlement/Engine               src/settlement/settlement-engine.service.ts: Plan has the reads
--                                   and the recovery plan (simulate, planRecovery), Assemble the
--                                   assembly of a batch (assembleBatch), Lifecycle its failure,
--                                   retry, hold, supersession and link (markFailed, retry, holdBatch,
--                                   supersede, linkSuccessor), Close its two terminal lanes
--                                   (markSettled, markSettledZeroNet, consumeRecoveryAllocation)
--   Settlement/Engine/Payout        the invariant over the tables that no batch is paid twice, lane
--                                   by lane, and over histories of calls; and the replay of a settle
--   Settlement/Canonical, Settlement/Statement, Settlement/CreditNote
--                                   src/settlement/settlement-statement.ts and
--                                   src/settlement/settlement-credit-note.ts
--   Settlement/Binding              src/settlement/settlement-execution-binding.ts; Gate, Recomputed
--                                   and Assembled have its theorems
--   Settlement/Call                 methods that make several transactions
--   Settlement/Execution            src/settlement/settlement-execution.service.ts: its checks, with
--                                   Operations (preview, approve, execute), ZeroNet (closeZeroNet),
--                                   Completion (completeChain, ensureStatement,
--                                   attachStatementToCreditNotes) and Replay (statement, replay);
--                                   Votes, Authority, Executed, Voting, Untouched and Replayed have
--                                   its theorems
--   Settlement/Refunds              recordRefund for a merchant invoice in
--                                   src/settlement/settlement-refunds.service.ts: the parent has the
--                                   transaction, Input, Amounts, Rows and Interactions its parts, Note the
--                                   credit note, Record the call; Written and Ended say how the
--                                   transaction ended, Audited what the audit did; Covered (by Sums and
--                                   Shares), Conserved (by Due, Taken and Owed) and Replay (by Again)
--                                   have its theorems
--   Treasury, Treasury/Movements    src/treasury/treasury-snapshot.ts; Cut says what the inputs come to,
--                                   Classes that the snapshot computes it, Agreement and Matched when a
--                                   run is matched
--   References                      src/references/reference.ts; Digits, Spelling, RoundTrip, Form and
--                                   Allocation have its theorems
--   Corporate/Text, Corporate/Csv, Corporate/Header, Corporate/Roster
--                                   src/corporate/roster-csv.ts: parseCsv, planHeaders and parseRoster
--   Phone                           src/auth/phone-normalize.ts
--   Prelude                         tests, lists, integers, results and texts that the parts share
--
-- How the parts interact: an order is charged by Fees, taxed by Tax and posted by Ledger; Settlement
-- computes the net of a merchant's items by Calculator in the minor units of Money, moves items,
-- batches and receivables along the tables of States, and posts markers and recoveries on Ledger.
-- Execution reads a batch through the engine, binds a preview and its votes to the hash of the frozen
-- calculation, settles the batch by the engine, and issues the statement that Replay makes again.
-- Refunds takes the refund of a paid invoice out of its item, or makes it a receivable of the merchant,
-- which a later batch recovers. Treasury compares the bank with what Ledger says.
--
-- Conventions. An amount in major units is an integer number of ticks, a millionth of a major unit;
-- decimal amounts of up to six digits are exact. The drift of binary floating point is not modelled: at
-- a decimal half of a minor unit, where `toMinor` rounds a product of doubles that may lie just below
-- it, the model goes up. Identifiers, references and instants are natural numbers. A service method is a
-- computation from tables to tables (`Tx`) whose failure returns an error and no tables, as the
-- transaction that rolls back; a method of several transactions (`Call`) keeps the tables that those
-- before the failure left. `JSON.stringify` of texts and numbers, the printing of dates and SHA-256 are
-- parameters (`Platform`), of which nothing is assumed. What the database or another service draws
-- (identifiers, candidate references, the clock) is an argument. `toUpperCase` of a currency changes the
-- letters of ASCII. Loops recurse over lists; the one bounded retry, of an assembly, recurses over the candidates that it is given and stops after three, and the allocation of
-- a reference over its five attempts, so no fuel is used but for the digits of a number, where the
-- number itself is enough.
-- A text of Corporate, Phone and References is the list of its UTF-16 code units; `toLowerCase` and the
-- length in UTF-8 are parameters (`Unicode`), and so are the draws of `randomInt` and the upper case of
-- References.
-- A call runs on one state: what another call may do between the reads of a method and its
-- transaction is not modelled, though each guard of a transaction is.
--
-- Not modelled: controllers, modules and listings; best-effort recovery from a lost race on the
-- ledger's unique key; the metadata of audits; the refund of fee invoices and its two-person
-- requests, receipts, the treasury runs, the rest of corporate gifting and the
-- other services of src/, which the settlement core does not call.
pub mod Prelude
pub mod Money
pub mod Fees
pub mod Tax
pub mod Ledger
pub mod Settlement
pub mod Corporate
pub mod Phone
pub mod Treasury
pub mod References
