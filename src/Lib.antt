-- ===== src/Lib.antt =====
-- The core of Kalam, a social network on Hedera with payments: the services of packages/api that
-- move money, start sessions, verify identities, and keep the social graph and the conversations, with
-- the theorems that make them correct.
--
-- The program is a NestJS server. A request reaches a service, which reads and writes tables through
-- TypeORM, keeps short-lived keys in Redis, and calls Hedera topics and a custody service over HTTP.
-- The parts here are:
--
--   Prelude, Exec, Repo: what the parts share. Prelude passes on the library and has the Boolean
--   tests; a text that is only compared or tested for emptiness is a number, the empty text 0. Exec
--   is a call of a method: a state and exceptions, with what was written before a throw kept. Repo
--   is a table behind a TypeORM repository, the list of its rows, with the laws of its queries.
--
--   Custody: packages/api/src/modules/integrations/tamam-custody/tamam-custody.service.ts.
--   `execute_transfer` is executeTransfer, `poll_transaction_status` pollTransactionStatus with
--   `poll_loop` its loop, `to_smallest_units` toSmallestUnits. The API is a parameter, a function of
--   the number of requests made before. The loop is a recursion on the attempts left, which start at
--   30, the source's MAX_POLL_ATTEMPTS, so it always ends.
--
--   Payments: packages/api/src/modules/payments/payments.service.ts, which calls Custody. Types has
--   the entities, State and Env; Steps the private helpers; Send sendPayment; Requests
--   createPaymentRequest, fulfillPaymentRequest, declinePaymentRequest, cancelPaymentRequest,
--   getPaymentRequest and expirePendingRequests; Split createSplitPayment; Lifecycle any sequence of
--   these calls.
--
--   Auth: packages/api/src/modules/auth. Redis is the keys with a time of expiry of
--   packages/api/src/modules/redis/redis.service.ts, Otp services/otp.service.ts, Users
--   services/users.service.ts, Service auth.service.ts, where `verify_and_sign` is verifyOtp and
--   `refresh_token` refreshToken.
--
--   Social: packages/api/src/modules/social/services/social-graph.service.ts. Graph has follow,
--   unfollow and the counts, Graph/Sync syncSocialGraphFromMirrorNode, Graph/Cache the reads
--   isFollowing and getUserStats, Graph/History any sequence of the calls, Graph/Reads the reads after
--   one. A message of the topic either cannot be decoded or is an event with an actor and a target;
--   JSON that lacks one of the two, which the source does not check for, is not modelled.
--
--   Organization: packages/api/src/modules/organization. Types has the entities, Members
--   updateMemberRole, removeMember, transferOwnership and createOrganization, Invitations
--   createInvitation and acceptInvitation, Guard the canActivate of guards/org-permission.guard.ts,
--   Guard/Ranks the order of the roles as a table.
--   The profile columns, the badges and the DID NFT that is minted in the background are left out.
--
--   Messaging: packages/api/src/modules/messaging. Conversations is conversations.service.ts: it has
--   the changes of the members and the keys, with crypto/key-exchange.ts as `seal_keys`, Create
--   createConversation, Reading markAsRead, Rotation what rotateKeysForConversation leaves behind,
--   Admins and History the members after any sequence of calls. The sealing of a key for one account
--   is a parameter. Sync is syncFromMirrorNode of messaging.service.ts.
--
--   Identity: packages/api/src/modules/identity. Wallet is services/wallet.service.ts, DidNft
--   services/did-nft.service.ts, Onboarding services/onboarding.service.ts, Kyc
--   services/kyc.service.ts with the handler of controllers/kyc-webhook.controller.ts. Moves is the
--   life cycle of a user as a relation, and Acts what a call writes to the table of users. An update
--   of TypeORM leaves a column alone whose value is undefined. What is sent to the KYC provider and
--   the metadata of the NFT are left out.
--
-- Numbers. An amount is a whole number of hundred-millionths of a token, the precision of the
-- columns; amounts that are negative or not numbers, which the source refuses first, and the rounding
-- errors of floating point are left out. A time is in milliseconds, in Auth in seconds.
--
-- Environment. The clock, uuidv4, randomInt, Redis failures, the mail service, JWT signing, the Hedera
-- topics, the mirror node and custody are functions, of the number of readings made before, so they
-- may answer anything and differently each time.
--
-- Stores. The tables and the keys of Redis are part of the state, with the documented behaviour of
-- the queries and commands that the services use: a save replaces the row with the same primary key
-- or adds one, a query takes rows in the order of insertion, a key is gone once its time has come.
-- Whether Redis answers at all is a parameter in Social; Auth, which needs it, takes it to answer.
--
-- Not modelled: failures of the database and transactions of it, calls that interleave, logging,
-- controllers and validation of requests, the paginated queries, the cache of follower lists, the
-- other modules of packages/api, packages/crypto, packages/shared and apps/web.
pub mod Prelude
pub mod Exec
pub mod Repo
pub mod Custody
pub mod Payments
pub mod Auth
pub mod Social
pub mod Organization
pub mod Messaging
pub mod Identity
