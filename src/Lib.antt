-- ===== src/Lib.antt =====
-- Off-chain half of the 1delta-X settlement: the TypeScript packages that price an order, quote a
-- fill, run the auctions for it, and keep the book of orders.
--
-- A maker signs an order: legs it gives and legs it wants, each with a start and an end amount, a
-- timing word and a curve that move the price between the two, and optional validators and modules.
-- A filler reads the order, computes what a fill pays and costs, and sends it to a contract. The
-- contract is the authority; these packages predict it, so an error here shows as a fill that
-- reverts, an amount that is short, or a cap that is passed. A quote auction is run by an
-- operator: fillers sign bids, the bids of a round select a winner and a price. An order book holds the
-- orders that makers announce, until they are cancelled, replaced, filled or expired.
--
-- Files and sources
-- - Prelude: results with the thrown errors of the code, Boolean tests, bits of a word, division.
-- - Sdk/Order, Sdk/Timing: packages/sdk/src/types.ts, the order and the packed words `timing` and
--   `params`; `isFillOnce` of packages/sdk/src/oco.ts. Sdk/Timing/RoundTrip has its theorems.
-- - Sdk/FeeSplit, Sdk/Funding: the same file, the fee leg of an output, the words that say where an
--   item's funds come from, and the default of the item policy.
-- - Sdk/Packed: packages/sdk/src/packed.ts, the blobs of an order: the writers and the `BlobReader` in
--   Sdk/Packed, `packOrder` and `unpackOrder` in Sdk/Packed/Order. Reads and Elements are about what
--   is read back, Words about the `timing` word, Layout and Wire about lengths, Total about success.
-- - Sdk/Oco: packages/sdk/src/oco.ts, brackets by a shared nonce (Siblings) and by claims (Claims).
-- - Sdk/Amend: `patchOrder` of packages/sdk/src/amend.ts, on Sdk/Oco and Sdk/Funding.
-- - Sdk/Conditions: packages/sdk/src/conditions.ts; Grammar has the documented grammar as a reader.
-- - Sdk/Permit: packages/sdk/src/permit3nonce.ts, the nonces of Permit3 messages by their kind.
-- - Sdk/Priority: packages/sdk/src/priority.ts, orders whose bump is bid in priority fee.
-- - Sdk/Proportional: packages/sdk/src/proportional.ts, amounts relative to a balance.
-- - Sdk/Pricing: packages/sdk/src/pricing.ts. `bumpBps` is `bump_bps` over `priority_bps`,
--   `clock_bps` and `gas_add`, its three parts; `currentAmountOutAt`, `currentAmountInAt`,
--   `fillAmountsOut` and `inputOwed` map `tick_out`, `tick_in`, `leg_amount_out` and `leg_input_owed`
--   over the legs. Ceil, Bounds, Curve and Fills prove what is said of a tick, a bump and a run of
--   fills.
-- - Sdk/Filling: packages/sdk/src/filling.ts. `exclusivityOverrideFor`, `previewFillLocal`,
--   `fillAmountFromBudget`, `needsBumpFloor`. Movers and Later are about the clock, Budget, Spend and
--   Covers about the budget, Quoted and Exclusivity about the gates.
-- - Sdk/Selection: packages/sdk/src/auction.ts, `selectQuote` and `verifyOutcome`. Ranking is about
--   the sorted bids, Outcome about the result.
-- - Sdk/Bid: packages/sdk/src/bid.ts, signed bids; the binding and the signer of
--   packages/sdk/src/quote.ts. What the code takes from viem is the parameter `Viem`.
-- - Auction/Executor: packages/auction/src/executor.ts, the executor that a bid may declare.
-- - Auction/Round: packages/auction/src/round.ts, the class AuctionRound. `submit` awaits the checks of
--   the signatures, so `admit`, `verify` and `land` are its three parts, and Round/Reachable has the
--   relation of all interleavings of submissions, landings, settlement and abandonment. Standing is
--   about the map of bids, Invariant, Landing and Displacement about the operations.
-- - Auction/Audit: `checkRound`, `winnerOf` and `executorOf` of the same file; Audit/Published relates
--   the audit to the round.
-- - Sdk/Quote: packages/sdk/src/quote.ts, cosigned quotes, `clockBump` and `effectiveQuotedBump`;
--   Ceiling relates the clock to the price, Cosigned the signature to the check.
-- - Auction/Auctioneer: packages/auction/src/auctioneer.ts, `open`, `submit`, `settle`
--   (`settle_auction`, whose second half is `mint`), `settleDue` and `prune`; Quotes and Due are
--   about them.
-- - Filler/Budget, Filler/Policy and Filler/Recheck: packages/beta-filler/src/policy.ts and recheck.ts,
--   the class Budget, the exclusivity and the amounts of the gates, and `profitableAt`, whose loop runs
--   on fuel for two seconds more than its horizon.
-- - Orderbook/Messages: packages/orderbook/src/messages.ts, and the verdicts and events of verify.ts,
--   cancels.ts and watcher.ts beside it. Orderbook/Admission: admission.ts, with its bounds in Bounds.
-- - Orderbook/Shelf, Graves and Book: the class Book of packages/orderbook/src/book.ts. Its fields
--   `entries` and `makerCounts` are a Shelf, `tombstones` and `pendingPerMaker` the Graves, and both
--   with the dirty hashes a Book. Shelf has `evict` and the choice of a victim, Graves the tombstones,
--   Book `precheck`, `admit` and the cancels.
-- - Orderbook/Ingest, Events and Recheck: its methods for announces and replaces, for chain events, and
--   for the sweeps. A method that awaits is a gate before the await and a landing after it.
-- - Orderbook/Query: packages/orderbook/src/query.ts, `queryOrders` as the rows that a cursor leaves and the
--   page of them; Keys, Sorted and Pages are about the order of rows, the sort and the cursors.
--   Orderbook/Summary: `summarize` of the same file.
-- - Orderbook/Cancels: packages/orderbook/src/cancels.ts, CancelVerifier and `evictableHashes`, and
--   `recoverEcdsa` of ecdsa.ts. Signers is about who can have signed an accepted cancel.
-- - Orderbook/Safety: the invariant of the book, a module for each kind of step, and the relation of
--   their interleavings in Reachable. Orderbook/Effects: the book seen as the order that each hash
--   names, a module for each operation.
-- - The modules called Tests: runs on small inputs, and the theorems at inputs that meet their conditions.
--
-- How the code is read
-- - An address is the number its bytes stand for: comparison in lower case is equality of numbers, and
--   the order of the lower-case texts is the order of numbers. The code's tests that a text has
--   twenty bytes are tests that the number is below 2 ^ 160.
-- - bigint amounts are naturals: all that the code subtracts is tested before or ordered by its
--   callers, as the comment at the head of a file says. A number where the code asks for an integer
--   is a `Number`, which may be negative or no integer.
-- - An exception is an `Error` in a `Result`; its constructor is named for the text or the contract
--   error that the code names, and `out_of_range` stands for the refusals of the word builders and of
--   the fee split.
-- - `x >> k`, `x & mask` and `x | y` are `x / 2 ^ k`, `x % 2 ^ w` and the library's `bit_or`.
-- - A `Map` or a `Set` is a list in the order of insertion; `sort` by a total order is an insertion
--   sort. A loop is recursion over the list that it walks, so there is no fuel.
--
-- Not modelled
-- - What the packages pass to viem (ABI encoding, hashing) and to RPC or HTTP: calldata builders,
--   signing, the solvers' sources, the servers and the interface. viem's `numberToHex`,
--   `getAddress` and ABI coder of Sdk/Packed, Sdk/Oco and Sdk/Conditions are parameters with what viem
--   documents of them.
-- - The bytes of a quote's `takerData`.
-- - The transport, the timers, the listeners and the decoding of payloads around the order book, and the
--   dirty hashes that `applyChainEvent` returns beside the evicted ones.
-- - The order builders of packages/sdk, its JSON form, and the signing in `amendOrder`.
-- - The engine of packages/beta-filler and its routing strategies, and in its policy the price gates and
--   the shapes of the orders that it takes.
-- - The contracts.
pub mod Prelude
pub mod Sdk
pub mod Auction
pub mod Filler
pub mod Orderbook
