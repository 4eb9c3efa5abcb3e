-- ===== src/Lib.antt =====
-- libra-v7: the migration of the recovery file into a genesis, the configuration of the
-- command-line tools, the wallet, and the manifests of a restore.
--
-- The migration starts from a recovery file, a list of records of accounts.
-- compatibility/src/legacy_recovery_v6.rs extracts a record from the state of an account
-- (`get_legacy_recovery`) and drops the accounts of the system (`strip_system_address`).
-- tools/genesis/src/parse_json.rs repairs the file (`fix_slow_wallet`, `drop_accounts`),
-- process_comm_wallet.rs rebuilds the donors of the community wallets from the receipts, supply.rs
-- sums the balances, genesis_functions.rs migrates the users into the session of a virtual machine,
-- and compare.rs audits the genesis against the file. vm.rs runs these stages between those of the
-- vendored crate and makes the change set; genesis_builder.rs reads the registrations of the
-- validators, has the set encoded, audits it and saves it. The tools read their
-- settings from types/src/core_types: app_cfg.rs holds profiles, playlists and costs,
-- network_playlist.rs picks the node to connect to, and pledge.rs has the pledges of a user. The
-- wallet in tools/wallet/src/core derives the keys of the accounts from a mnemonic (mnemonic.rs),
-- compatibility/src/version_five has the hashes, addresses and event keys of the older snapshots, and
-- tools/storage/src/restore_bundle.rs finds the manifests for the restore of a database.
-- tools/txs/src/txs_cli_community.rs sends the proposals of a file for a community wallet.
--
-- Files:
--   Platform            what the code takes from other crates: addresses and their texts, keys,
--                       chains, urls, the hash, and 64-bit floating-point numbers, which are exact
--                       on whole numbers of at most 2 ^ 53
--   Prelude             tests on native numbers, lists, results and texts as lists of character codes;
--                       Prelude.Bits reads `|`, `&` and the shifts as sums, and has lists of bits;
--                       Prelude.Endian has the bytes of a number, the lowest first
--   Types.Resources     types/src/move_resource, legacy_currency_info.rs: the resources as records
--   Types.Coin          types/src/move_resource/gas_coin.rs: the balances on chain
--   Types.Pledge        types/src/core_types/pledge.rs
--   Types.Profile       app_cfg.rs: `Profile` and its pledges, `get_nickname`
--   Types.TxConfigs     app_cfg.rs: `TxCost`, `TxConfigs`, `get_cost`
--   Types.AppCfg        app_cfg.rs: `AppCfg`, its profiles and its playlists
--   Types.Playlist      network_playlist.rs: `HostProfile`, `NetworkPlaylist`
--   Compat              legacy_recovery_v6.rs: `LegacyRecoveryV6`, its extraction, the accounts of
--                       the system
--   Compat.Hex          hexadecimal texts, which the next three files share
--   Compat.LegacyAddress    compatibility/src/version_five/legacy_address_v5.rs
--   Compat.EventKey     compatibility/src/version_five/event_v5.rs
--   Compat.HashValue    compatibility/src/version_five/hash_value_v5.rs: `HashValueV5`, its bits,
--                       nibbles, texts and serde forms; Compat.HashValue.Iterator is
--                       `HashValueBitIterator`
--   Genesis.ParseJson   tools/genesis/src/parse_json.rs
--   Genesis.Supply      tools/genesis/src/supply.rs; Genesis.Supply.Tally is the same over whole
--                       numbers
--   Genesis.BTreeMap    the ordered map of the standard library, as an association list
--   Genesis.CommWallet  tools/genesis/src/process_comm_wallet.rs
--   Genesis.Session     the session of the Move virtual machine: `exec_function` is a parameter
--   Genesis.Functions   tools/genesis/src/genesis_functions.rs: the migration of each resource
--   Genesis.Users       genesis_functions.rs: the loop over the users, the cumulative deposits;
--                       Genesis.Users.Plan is the plan of its calls
--   Genesis.Compare     tools/genesis/src/compare.rs: `compare_recovery_vec_to_genesis_tx`
--   Genesis.Compare.Checks  compare.rs: the checks of the validators and of the supply
--   Genesis.Encode      tools/genesis/src/vm.rs, genesis.rs: the configuration and the change set
--   Genesis.Registration    genesis_builder.rs: the texts of a registration; its child Config has
--                       `get_config` and `get_validator_configs`
--   Genesis.Build       genesis_builder.rs: `fetch_genesis_info`, `build` and the audit in it
--   Storage.RestoreBundle   tools/storage/src/restore_bundle.rs
--   Wallet.KeyFactory   tools/wallet/src/core/key_factory.rs; hkdf, pbkdf2 and the keys are a record
--                       of operations
--   Wallet.Library      tools/wallet/src/core/wallet_library.rs
--   Wallet.Mnemonic     tools/wallet/src/core/mnemonic.rs: `new`, `from`, `Display`; its children
--                       Words, Reader, Writer and Files have the table of words with the binary
--                       search, `U11BitReader`, `U11BitWriter`, and `write` and `read`
--   Txs.Batch           tools/txs/src/txs_cli_community.rs: `BatchTx::run` and `propose_single`, with
--                       `cast_decimal_to_coin` of types/src/move_resource/gas_coin.rs
--   Tests               the theorems at concrete inputs, on a small platform
--
-- State is passed explicitly: a function on `&mut self` returns the record that it leaves, and a
-- closure over a mutable list is a recursion that returns what it has written. `anyhow::Result` is
-- `Result` with a constructor for each message; what stops the process (`unwrap`, `expect`, a failed
-- assertion) is an error too. A u64 sum wraps around at 2 ^ 64, as in a release build. A loop is
-- a recursion on its list or on its range, but for five by fuel: `generate_addresses`, for which as
-- many rounds as the depth are enough; `fill_full`, where two rounds are, since eleven bits have one
-- whole byte at most; `search_between`, the binary search of the standard library, whose range shrinks with each halving, so that one more than
-- the length of the table is enough; and `collect` and `count_equal`, where 257 calls of `next` reach
-- the end of the 256 bits. A run out of fuel is the result of an unsuccessful search, or of a panic in
-- the two last, and never that of a finished loop.
--
-- The sums of supply.rs are floating-point numbers, which hold whole numbers up to 2 ^ 53; the final
-- supply of 100 billion coins with six decimals is above that, so that sums of that size may round.
--
-- What the program gets from outside is an argument: the answers of the nodes and the order of their
-- arrival, the order of the random generator, the answer of the user, the chain of the environment,
-- the resources on chain, and the content of the files. Output on the console, progress bars, and
-- the (de)serialisation of the files are left out.
--
-- The SHA-2 digest and the crate hex are records of operations with their documented
-- laws. The stages of a genesis that diem_vm_genesis runs are operations of `Vendor`.
--
-- Not modelled: the Move framework and its builders, the generated SDKs, the readers of version-five
-- snapshots but for their hashes, addresses and event keys, the gathering of the framework's bundle, the upload of the files of a
-- genesis, the setup of validators, and the tools for other transactions, queries and rescue, which are mostly
-- calls of the Diem crates and of the network.
pub mod Compat
pub mod Genesis
pub mod Platform
pub mod Prelude
pub mod Storage
pub mod Tests
pub mod Txs
pub mod Types
pub mod Wallet
