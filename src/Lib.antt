-- ===== src/Lib.antt =====
-- The deployment side of the Reserve protocol's repository, with its icETH collateral plugin: the
-- TypeScript that reads numbers, reads the configuration of a network and deploys the protocol's
-- contracts in phases, each of which records the addresses of what it has deployed in a JSON file, that
-- confirms the deployment, and that has the sources of the contracts verified.
--
-- The parts and their files:
--   * Numbers (common/numbers.ts, common/constants.ts): `bn`, `fp`, `_parseScientific`, `div`, `near`,
--     `fpFloor`, `fpRound` and `fpCeil`. Numbers.Decimal is the regular expression, run on the codes
--     of a text; Numbers.Grammar is the independent grammar of what it accepts.
--   * Configuration (common/configuration.ts): the table of networks, as data;
--     Configuration.RToken has the interfaces of the RToken and the bounds of its parameters.
--   * Runtime: what the scripts run on. Hardhat, ethers and the network are the record `Hardhat`, a
--     parameter; a script is a state transformer on the network and the deployment files that returns
--     or throws. Runtime.Contracts has the records that are written to the files, Runtime.Ensures and
--     Runtime.Deploying the rules by which the theorems go through a script, Runtime.Live what it
--     means that a recorded address has a contract behind it.
--   * Deployment (scripts/deployment/common.ts, scripts/deployment/utils.ts,
--     common/blockchain-utils.ts): file names, reading of files, the chain id and the guards.
--   * Environment (utils/env.ts; Environment.Build is hardhat.config.ts): what is taken from the
--     environment, which is a list of keys and texts.
--   * Events (common/events.ts): the search for an event in a receipt. Events.Checking is the
--     description of the events that pass, read off chai and the arguments.
--   * Tasks (tasks/deployment/, tasks/testing/): the tasks that create one contract from the
--     parameters they are run with (Tasks.Assets, Tasks.Collateral, Tasks.Mocks), those that work on a
--     wallet (Tasks.Wallet, Tasks.Minting; Tasks.Minted is the relation of the network before and
--     after).
--   * Phase1 (scripts/deployment/phase1-common/), Phase2 (scripts/deployment/phase2-assets/), Phase3
--     (scripts/deployment/phase3-rtoken/): the scripts, one function for each `main`, split where the
--     source has comments between its blocks. Phase3.Config is the configuration of the RToken.
--     Phase1.Updating is the specification of the scripts of Phase1 as updates of one record.
--   * Deploy (scripts/deploy.ts): the scripts of the first two phases one after the other.
--   * Confirmation (scripts/confirm.ts, scripts/confirmation/): the checks of prices and governance.
--   * Verification (scripts/verify_etherscan.ts, scripts/verification/ and verifyContract of
--     scripts/deployment/utils.ts): what is asked of the service that verifies contracts.
--   * Tests: a concrete network, and the theorems on it.
--
-- How they interact: Deploy runs the scripts; each reads the chain id, the configuration and the file
-- of its network (Deployment), checks what the scripts before it have recorded, deploys contracts or
-- runs a task (Tasks) with numbers made by Numbers, and writes the file again. Phase3 sends
-- transactions and finds the new contracts by Events. Confirmation and Verification only read the
-- files; the runs of verify:verify are a list in the world, by which the service answers.
--
-- How the code is modelled: a text that is parsed is the list of its codes; a BigNumber is an integer,
-- and the operations of the ethers package are the record `BigNumber` with the laws `IsDocumented`
-- (BigNumber.Reference is a concrete one). A call that may be rejected gives an option, and a rejection
-- throws. A file holds the record that was serialised into it; a key that is missing from an object
-- is `undefined`. No loop of the code needs fuel: each runs over a list.
--
-- Not modelled: the contracts (contracts/, in Solidity), the tests (test/), scripts/check_env.ts, the
-- deprecated tasks (tasks/deprecated/, which tasks/index.ts does not load), `expectEvents`, console
-- output, waiting between calls, and `shortString`, which formats by the locale.
pub mod Prelude
pub mod Errors
pub mod Events
pub mod BigNumber
pub mod Numbers
pub mod Dict
pub mod Environment
pub mod Configuration
pub mod Confirmation
pub mod Runtime
pub mod Tests
pub mod Deploy
pub mod Deployment
pub mod Tasks
pub mod Phase1
pub mod Phase2
pub mod Phase3
pub mod Verification
