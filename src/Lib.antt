-- ===== src/Lib.antt =====
-- The e-wallet of the repository: its transaction service, the payment partners behind it, the service
-- that asks them for settlements, and the service of users and logins. All paths are below e-wallet/.
--
-- transaction-service (src/transactions/transactions.service.ts over five tables, and
-- src/events/transaction-outbox.service.ts): wallets, transfers, top-ups, withdrawals, settlement, the
-- anchoring of transactions on a Hyperledger chain, and the outbox that tells other services of them. A
-- request is validated, booked in a DB transaction with a double-entry ledger, submitted to a payment
-- partner if it is external, and answered; an event goes to the outbox. Settlement reports and the
-- chain worker finish it later.
--
-- outside-payment-service (src/transfers/transfers.service.ts): takes the submissions of the
-- transaction service, sends them signed to the API of a partner, or to a mock, stores them in a table
-- of its own, and answers what has become of them. settlement-service
-- (src/settlement/settlement.service.ts) asks it, and reports to the transaction service.
--
-- auth-service (src/auth, src/users): users, PINs, logins with Firebase, access and refresh tokens,
-- one-time codes, step-up tokens and the tokens of QR codes.
--
-- Files of the transaction service:
--   Prelude      names of the library, Boolean tests; Prelude/Int signed numbers, Prelude/Text the
--                string methods of JavaScript, Prelude/Rows tables and queries
--   Entities     the rows: src/wallets/entities, src/transactions/entities, src/events/entities
--   Store        the database, its unique indexes and DB transactions, the clock, keys, random numbers
--                and the two services that are called; Store/Post the rules to reason on methods
--   Requests     validateCreateTransfer, validateCreateTopupIntent, validateCreateWithdrawalRequest,
--                validateCreateFundingSource, normalizeAmount, normalizeCurrency
--   Queries      listUserTransactions, listSettlementCandidates
--   Wallets      createWallet, getWallet, reconcileWallets; Wallets/Checked the test of one wallet
--   Outbox       transaction-outbox.service.ts, enqueueTransactionEvent, enqueueChainCompletedEvent
--   Partner      submitOutsideTransfer
--   Transfers    createTransfer, persistTransfer, mapTransferResponse
--   Chain        anchorToChain, applyChainResult, markChainPending, processPendingChainTransaction,
--                claimDueChainTransactions, runChainAsyncTick, computeNextAttemptAt
--   Funding      createFundingSource, listFundingSources, getActiveFundingSource
--   Topups       createTopupIntent, persistTopupIntent, applyDepositCreditIfNeeded
--   Withdrawals  createWithdrawalRequest, persistWithdrawalRequest, rollbackWithdrawalDebit
--   Settlement   markSettlement
--   Receipts     getTransaction, refreshAnchoredReceiptTransparency
--   Risk         ato-risk.service.ts: the checks and the statistics; Risk/Assess the decision
--   Books        when wallets and ledger are sound together, and how methods change the money
-- Files of the other services:
--   Poller       settlement.service.ts, over the interface of the transaction service
--   Partners     transfers.service.ts and its table: Partners/Defaults, Settings and Runtime the settings
--                of a partner, Objects the values of JavaScript, Payloads and Signing the requests,
--                Answers what a partner says, Http and Calls the calls, Initiate and Check the two
--                methods; Rows, Directory, Lifecycle, Repeats and Lists what they keep, and Agreement
--                how they fit the transaction service
--   Auth         the tables of auth-service: Auth/Phones, Users and Pins users.service.ts, Sessions and
--                Logins auth.service.ts, Cleanup auth-sessions-cleanup.service.ts, Otps, StepUp, Qr,
--                SignUp and Kyc auth-internal.controller.ts; Runs the calls one after another
--   Tests        small databases, and runs on them
--
-- A method of the transaction service is a function from the tables to a result and the tables that it
-- leaves (Method in Store): a throw is an error value, and a DB transaction (transactional) puts the
-- tables back after an error. In the other services the functions take what they see from outside as a
-- record (PartnerEnv, AuthEnv) and return the answer with the table. A table is the list of its rows in
-- the order of their creation. Each part defines what its methods do; the modules below it, such as
-- Transfers/Locks, Transfers/Moves and Transfers/Answers, prove what they keep, with the predicates of
-- Books.
--
-- Sound books (IsSound in Books): the wallets have different keys and different owners (the unique
-- index on userId and currency), each wallet with ledger entries has the balance that its entries add
-- up to from the first entry's opening balance, and no balance is negative. The hypothesis IsFresh
-- says that the key which the database gives to a new wallet stands in neither table. Distinct in
-- Partners/Rows and UniqueSessions in Auth/Sessions/Spent are the unique indexes of those tables.
--
-- Bounds: no function runs on fuel but decimal in Prelude/Text/Split, which writes a number of at most
-- 16 digits, as many as a whole number has that JavaScript holds exactly; all loops run over lists of
-- the model. Amounts and balances are whole numbers without a limit. In the code they are JavaScript
-- numbers behind bigint columns: they are exact up to 2 ^ 53, and the model says nothing beyond.
-- Math.random() is a fraction over 2 ^ 53, and its product with a delay is taken exactly.
--
-- Parameters, which may answer anything unless a theorem names what it needs: the chain service, the
-- HTTP of the partners, HMAC and other hashes, scrypt, the JSON texts, encodeURIComponent, localeCompare,
-- Firebase, the library of access tokens, the mails, the scoring model, the arithmetic of doubles, the
-- reading of dates, the clock, and new keys and random texts.
--
-- Not modelled: failures of the database other than those of a unique index; the interleaving of two
-- calls, except in createWallet and createFundingSource, whose race on the unique index is a function
-- that changes the tables between the look and the insert; one call sees one clock value; the
-- transactions of one chunk of a worker, which the code runs together, run here one after another;
-- to_upper and to_lower change ASCII letters only; keys of objects that look like numbers keep their
-- place; gRPC, Kafka, timers, logging and the mapping of messages; getKycProfile of auth-service.
-- The services api-gateway, chain-service, notification-service, aml-service and ato-service, the
-- clients, the chain network and its chaincode, and the monitoring are not modelled.
pub mod Prelude
pub mod Entities
pub mod Store
pub mod Requests
pub mod Queries
pub mod Wallets
pub mod Outbox
pub mod Partner
pub mod Transfers
pub mod Chain
pub mod Funding
pub mod Topups
pub mod Withdrawals
pub mod Settlement
pub mod Receipts
pub mod Risk
pub mod Poller
pub mod Partners
pub mod Auth
pub mod Books
pub mod Tests
