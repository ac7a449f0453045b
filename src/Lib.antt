-- ===== src/Lib.antt =====
-- Verification of the eSIM MCP server (src/esim_mcp): a server that lets a chat client buy eSIM
-- plans on a platform's HTTP API, on behalf of a user who signed in.
--
-- Paths below are from the repository's root.
--
-- Errors, Owner (src/esim_mcp/errors.py, src/esim_mcp/purchase/store.py): the typed errors with
-- their codes, and the owner of a record, a digest of the MCP client with a digest of the user.
-- A method that may raise returns `Result`, with the store it leaves where it changes one.
-- Quotes (src/esim_mcp/purchase/models.py, src/esim_mcp/purchase/store.py,
-- src/esim_mcp/purchase/service.py): the life of a quote, its store as an association list in
-- insertion order, and the bodies that the three quote services share. Purchase.Service and
-- Topup.Quotes are the services themselves. Purchase has the terms and the validation of
-- src/esim_mcp/purchase/validation.py.
-- Records: the store that src/esim_mcp/purchase/execution.py, src/esim_mcp/purchase/card.py and
-- src/esim_mcp/topup/store.py each declare.
-- Purchase.Execution, Card, Topup.Execution and Topup.Checkout are the four users of it: the
-- records, the stores and the services that count attempts and keep results and failures.
-- Session and World.Manager (src/esim_mcp/session/models.py, src/esim_mcp/session/store.py,
-- src/esim_mcp/session/manager.py, and the listeners of src/esim_mcp/server.py): sessions,
-- logins, the rotation of tokens, the logout. `World` is the state of the process: all stores,
-- and the requests that left for the platform.
-- Selection (src/esim_mcp/selection/): the numbered listing of eSIMs.
-- Backend (src/esim_mcp/client/base.py, src/esim_mcp/models/common.py): what an answer of the
-- platform is read as, the loop of repeated reads, and the list of the routes that may be
-- called.
-- Purchase.Failure and Confirm (src/esim_mcp/models/purchase.py,
-- src/esim_mcp/tools/purchase_execution.py, src/esim_mcp/client/purchase.py): the confirmation
-- of a purchase, which debits the wallet. The handler is cut at its two awaits of the platform:
-- `begin`, `continue_refreshed`, `finish`. Confirm.Protocol lets any number of calls interleave,
-- as a step relation on the world and the locks that are held; `Reach` is its runs, of any
-- length.
-- EsimTopup (src/esim_mcp/tools/esim_topup.py, src/esim_mcp/client/topup.py): the top-up of an eSIM
-- from the wallet, whose route has no idempotency key. Target and Reads have the caller's eSIMs, the
-- plans that the platform offers for one, and the balance, each read by `run_authenticated`;
-- Prepare has the four free tools, Revalidate the reads that a confirmation makes again, and Confirm
-- the confirmation, cut at its awaits as `begin`, `after_reads`, `continue_refreshed` and `finish`.
-- EsimTopup.Confirm.Protocol lets calls interleave, as Confirm.Protocol does for purchases.
-- CardModels and CardPayment (src/esim_mcp/models/card.py, src/esim_mcp/client/card.py,
-- src/esim_mcp/tools/card_checkout.py): what the platform says of card payments, the hosted payment
-- page of a card quote (CardPayment.Checkout) and the check of its payment (CardPayment.Status),
-- each cut at its awaits as `begin`, `continue_refreshed` and `finish`. Of the payloads the links,
-- references, amounts, currencies, identifiers and the statements on payment are kept.
-- WalletModels and WalletTopup (src/esim_mcp/models/wallet_topup.py,
-- src/esim_mcp/client/wallet_topup.py, src/esim_mcp/tools/wallet_topup.py): the same for wallet
-- top-ups, with the preparation (WalletTopup.Prepare), which reads the platform's limits.
-- Tests: concrete inputs, among them a run in which an answer is lost and the purchase repeated.
--
-- Bounds: there is no fuel. The loop of repeated reads is structural on the attempts that are
-- left. Numbers are natural numbers without a bound, as Python's; times are microseconds;
-- amounts of money are integers in a unit fine enough for every amount of the platform. White
-- space and the case of letters are those of ASCII.
--
-- Parameters: random ids and keys, the clock, the digest of user references and the platform's
-- answers are arguments. A new quote id is one that is not stored, as 32 random bytes are. JSON
-- and pydantic are represented by what they made of a body (`Body`, `Payload`), and the properties
-- of a plan of the catalogue by their values (`Bundle`). The constructor of decimals, `urlparse`
-- and the largest amount that is parsed, which depends on the unit, are arguments. The locks of
-- asyncio are in the step relation: a call starts when no other holds the lock of its reference.
--
-- Not modelled: the wording of messages and the logs; the tools of the catalogue, of the account,
-- of the consumption and of the preparation of purchases in src/esim_mcp/tools, beyond the services
-- that they call; interleaved runs of the tools of hosted pages; settings, the HTTP application and
-- its identities, and redaction.
mod Prelude
pub mod Errors
pub mod Owner
pub mod Records
pub mod Quotes
pub mod Backend
pub mod Session
pub mod Selection
pub mod CardModels
pub mod Card
pub mod CardPayment
pub mod WalletModels
pub mod WalletTopup
pub mod Topup
pub mod Purchase
pub mod World
pub mod Confirm
pub mod EsimTopup
pub mod Tests
