-- ===== src/Lib.antt =====
-- A verification development beside the logion API: the TypeScript client and node API of the
-- logion network. Paths below are from the repository's root.
--
-- Numbers models packages/node-api/src/numbers.ts, and Currency models Currency.ts beside it.
-- Strings of digits are lists of code units (Numbers.Text), a NormalizedNumber is the text with
-- its parts, and the shifts of the decimal separator follow the branches of the source. Values are
-- compared by SameValue: in every unit that writes both numbers without decimals, they are the
-- same integer. The conversions of floating point numbers are left out.
--
-- Fees models FeesEstimator.ts of the same package, whose amounts are those of Currency, and
-- packages/client/src/Fees.ts, which reads amounts that a backend sends. The queries of the chain
-- are the record Fees.Estimator.Api: each answers a number or throws.
--
-- State models packages/client/src/State.ts: the state objects live in a store, a reference is an
-- index of it, and a method returns its result, or the error that it throws, with the store that
-- it leaves. The loop of getCurrentState takes fuel; the length of the store is enough, since a
-- replacement is newer than what it replaces.
--
-- License models packages/client/src/license and HashString of packages/client/src/Hash.ts, with
-- the countries of Country.ts. The validator collects its messages as the source does; the
-- dictionaries are association lists, and the members that every JavaScript object inherits count
-- as known. JSON.parse, JSON.stringify, toLowerCase, the check of ISO dates and Hash.of are
-- parameters. CollectionItem models what the constructor of packages/client/src/CollectionItem.ts
-- keeps of these elements.
--
-- Hash models packages/node-api/src/Hash.ts, and Deliveries the search of a certified copy in
-- packages/client/src/Deliveries.ts, which compares hexadecimal forms.
--
-- Http models the two clients of packages/client/src/Http.ts. A query is a function of the node that
-- answers or throws. The fallback from node to node takes fuel, and one more than the number of
-- nodes is enough, since each round that fails leaves one node less; the random index is any number
-- brought in the range of the nodes.
--
-- Network models packages/client/src/NetworkState.ts, whose comparison is arrayEquals of
-- packages/client/src/Collections.ts, in Collections; the equality of the items is a parameter.
--
-- Polling models packages/client/src/Polling.ts. A tick starts when the producer of the one before
-- has answered, as with a producer that is faster than the period; the ticks take fuel, and one more
-- than the number of retries is enough.
--
-- Token models the types and the forms of identifiers of packages/client/src/Token.ts; a regular
-- expression is a recogniser by clauses.
--
-- Authentication models AccountTokens of packages/client/src/AuthenticationClient.ts. An account is
-- its key, which toKey and parseKey turn to and from accounts; a date is its time.
--
-- Recovery models packages/client/src/Recovery.ts: the objects made of requests, the choice of the
-- state of an account's protection, and the parameters that a state shows. Names, dates and
-- addresses of the users in the requests, which no decision reads, are left out, and so are the
-- submissions to the chain.
--
-- Calls models what the client asks of others, with Error.ts of packages/client/src: a request to the
-- backend or a transaction, answered by a function of the call and of a state that nothing is known
-- of. A run returns its result or error with the calls that it made, in their order.
--
-- LocClient models the operations of AuthenticatedLocClient in packages/client/src/LocClient.ts that
-- go with a transaction: Items the publications and acknowledgements, Opening the opening by the
-- requester, Lifecycle the acceptance, closing and voiding by the owner, Submissions the submission
-- of collection items, with validateToken as a parameter. The adapters of packages/node-api, which
-- only change the form of arguments, are left out. HashOrContent models the files of
-- packages/client/src/Hash.ts.
--
-- Loc models the data of a LOC in packages/client/src/Loc.ts: Loc.Merging the items and Loc.Data the
-- LOC, as the backend tells of them, merged with what the chain tells. The parsing of dates, the
-- constructor of a UUID, getValidAccountId and Hash.of are parameters. Loc.Closing models the
-- conditions of LegalOfficerOpenRequestCommands to close a LOC, and Loc.OpenLoc the publication and
-- acknowledgement of items by an OpenLoc, up to the refresh of the LOC; the errors of the searches do
-- not tell the hash.
--
-- Locs models LocsState and the LOCs that it holds, of the same file, as state objects of one store
-- (State): a LOC refers to its LocsState, and a LocsState to its LOCs by their identifiers.
--
-- Common has the shared names, tests, lists, results and texts. A call that may throw returns a
-- Result, whose error is the message; an asynchronous call is the sequence of its steps.
--
-- Not modelled: the interfaces that are generated from the chain (packages/node-api/src/interfaces),
-- the packages of platforms, wallets and extensions, which are glue, the plain requests and queries
-- of the clients, which have no logic of their own, and so far the votes, the vaults, the batches of
-- queries, the records of tokens and the transitions of a recovery.
pub mod Authentication
pub mod Calls
pub mod CollectionItem
pub mod Collections
pub mod Common
pub mod Country
pub mod Currency
pub mod Deliveries
pub mod Fees
pub mod Hash
pub mod HashOrContent
pub mod Http
pub mod License
pub mod Loc
pub mod LocClient
pub mod Locs
pub mod Network
pub mod Numbers
pub mod Polling
pub mod Recovery
pub mod State
pub mod Tests
pub mod Token
