-- ===== src/Lib.antt =====
-- The backend of AI_TGS, a platform on which teachers build tests from a bank of questions.
--
-- Usage (src/modules/subscriptions/usage.service.ts): the quota of a subscription.  Rows.antt has
-- the rows of usage_counters, usage_reservations, usage_ledger and audit_logs and the state;
-- Store.antt the SQL statements with the CHECKs of
-- src/database/migrations/1726100000000-TransactionalSubscriptions.ts; Reserve.antt, Settle.antt
-- and Expire.antt one function for each method; Service.antt the runs of the service.  A method is
-- an action from a state to an error or to a result and a state: a failed transaction is rolled
-- back.  Row locks make transactions on one counter run one after the other, so a run is a list of
-- calls.  Ids are numbers from a counter; `now` is an argument; SKIP LOCKED takes the locked rows
-- as a predicate.  A method that settles returns the row it read or the list that it takes from
-- the answer to UPDATE … RETURNING.  Audit metadata is left out.  Numbers are unbounded: a limit is a safe integer,
-- so under a limit the sums of the code are exact; without one, the range of bigint is not
-- modelled.
--
-- Entitlement (src/modules/subscriptions/entitlement.service.ts): the subscription that a request
-- is counted against, as a function of the table of subscriptions joined with plans.
--
-- Exam (src/modules/tests): tests, their sections and their snapshots of questions.  Rows.antt has
-- the rows; State.antt the state and the statements that renumber and recount; Access.antt the
-- guards; Snapshots.antt test-snapshot.service.ts; Edit.antt, Reorder.antt, Finalize.antt and
-- Clone.antt the methods of tests.service.ts that change a test; View.antt get, preview and
-- answerKey; Sections.antt test-sections.service.ts; Service.antt runs of requests to
-- TestsService.  finalize calls Entitlement and Usage, whose tables are part of the state, in its
-- own transaction, as the code does.  Keeps and the files in its folder follow what a request
-- leaves alone.  `list`, notifications, the audit metadata, the columns `version`, `created_at` of
-- a test and `updated_at` are not modelled.  Marks are hundredths.  Requests respect the
-- validation of the DTOs; a thrown request is rolled back.  The unique indexes are checked where a
-- question or a section is inserted; while positions are shifted by 1000000 they are not.  Rows
-- are ordered by position and then by time of creation where the code asks for less.  A column's
-- length counts characters, of which a text has one or two units each.  An absent field of an
-- update is `none`; an explicit null is not represented.
--
-- Questions (src/modules/questions): the bank of questions.  Validator.antt has
-- question-validator.service.ts; Store.antt and Service.antt the methods of questions.service.ts
-- that change the bank, and `find`.  `toLowerCase` and the text that the database gives for an
-- absent value are parameters.  Requests run one after the other; `list`, a paged query, is left
-- out.  Keeps and the files in its folder follow what each method leaves of the bank.
--
-- Billing (src/modules/billing): checkouts, the events of a payment provider and the subscriptions
-- they change.  Store.antt and Process.antt have the statements and `process`; Service.antt
-- checkout, webhook, cancel, createMapping and retry; Reconcile.antt reconcile and reconcileOne.
-- The provider (src/infrastructure/providers/provider.contracts.ts) is the record of functions
-- PaymentProvider and a parameter, as are the hash and `toUpperCase`.  What these methods save
-- before they throw stays saved, so they are handlers (Common/Handlers.antt), which give a state
-- with an error too; only `process` is a transaction.  A write of a subscription throws where it
-- breaks a CHECK or a unique index of the table.  notifyBilling and the lists are left out.
--
-- Retrieval (src/modules/retrieval/context-packing.service.ts): Packing.antt has the choice of the
-- evidence for a prompt.  `toLowerCase` is a parameter and scores, which it does not read, are
-- numbers.
--
-- Generation (src/modules/ai-generation): Expander.antt has generation-unit-expander.service.ts and
-- question-marks.ts, how a request becomes the units that a model is asked for.  A target of marks
-- is a fraction.
--
-- Auth (src/modules/auth): Tokens.antt has the methods of auth.service.ts on tokens.  JwtService and
-- the digest are parameters; tokens are numbers.  Time is an argument, and requests run one after
-- the other: the lock on a family and the single UPDATE that consumes a token give the code that
-- order.  What an account sees of e-mail and notices is left out.
--
-- Notifications (src/modules/notifications): Delivery.antt has the deliveries of
-- notifications.service.ts: the row of `create`, process, deliver and retry, with the e-mails that
-- were handed to the provider and the audits.  Claiming rows, sending an e-mail and writing its
-- outcome are steps of their own; Bounded.antt runs them in any order, so workers may overlap, be
-- overtaken after ten minutes or die.  The provider of e-mail, the templates and the decryption are
-- one parameter, the answer to a delivery at a time.
-- The rows of notifications and preferences are not modelled.
--
-- Loops are structural recursion on the rows or the request, so no fuel is used.
--
-- Not modelled: the rest of AI generation, retrieval and authentication; ingestion, embeddings and
-- the knowledge base; schools, curriculum, users, exports and reports.  Controllers,
-- migrations, configuration and health probes have no logic of their own.
pub mod Common
pub mod Usage
pub mod Entitlement
pub mod Exam
pub mod Questions
pub mod Billing
pub mod Retrieval
pub mod Generation
pub mod Auth
pub mod Notifications
