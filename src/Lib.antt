-- ===== src/Lib.antt =====
-- The release tools of tailscale-koolshare: the Python scripts under tools/ that lock the inputs
-- of a core build, check what was built, and publish it.
--
-- The parts and how they interact. tools/toolchain.py resolves and validates the lock of the Go
-- toolchain, which tools/resolve_core.py holds in the lock of a core build.
-- tools/prepare_bundle.py, tools/check_stable.py and tools/build_core.py accept only stable
-- upstream versions. tools/artifact_utils.py checks the binaries and tools/firmware_compat.py
-- finds the file system in a firmware image. tools/check_stable.py finds the version to build, and
-- skips it where the stable feed has it. tools/release_core.py binds what is signed to the lock
-- and to the build. tools/publish_core.py publishes the signed archives as an immutable release
-- and then moves the stable feed that the plugin on the router reads. tools/prepare_bundle.py
-- takes the core that the plugin is pinned to from such a release, and tools/package.py checks it
-- and the plugin before it builds the installation archives with tools/artifact_utils.py.
-- tools/smoke_httpdb.py tests them behind a relay to a container.
--
-- Python: JSON values, texts, numbers and regular expressions as the scripts use them. A dict is
--   an association list with distinct keys. A whole number is an integer; a float is `m / 2^k`.
--   `re.fullmatch` is decided by derivatives. What depends on the Unicode tables of the
--   interpreter (the decimal digits of `\d` and `int`, and `str` of a value that is no text) is
--   the instance argument Interpreter.
-- Files: directory trees, as lists of the entries that `rglob` finds, and what stands at a path.
--   They are shared by the parts that read and write trees.
-- Toolchain: tools/toolchain.py. Version has `_version` and `_key`, Requirements `_requirements`,
--   Lock `validate_go_lock`, Resolve `resolve_go`, Tree `_tree_hash`, `_check_extracted` and
--   `_installed_valid`, Install `toolchain_dir` and `_archive_valid`, Stage and Provision
--   `provision_go`. The state Disk is the archive in the cache and the target; the record Outside
--   has `download`, `extract` and what other processes do at four places between the steps.
-- CoreLock: Identity has the tests of versions and build numbers, and `bundle_identity` of
--   tools/prepare_bundle.py; Lock has `validate_lock` of tools/resolve_core.py.
-- Publish: tools/publish_core.py. Action has the effects: an action takes the history of requests,
--   `gh` commands, files written and pauses, and returns a result with the new history. World is
--   what is outside: GitHub, the command `gh`, the verifier `tsks-helper`, SHA-256 and the local
--   files; answers may depend on the history. Descriptor has `identity`, `verify_manifest`,
--   `archive_matches`, `validate_archives` and `core_release_notes`; Remote `release_by_tag`,
--   `remote_manifest` and `readback_assets`; Existing `existing_manifest`; Main `main`.
-- Resolve: tools/resolve_core.py. Source has `source_requirements`, Check and Published
--   `published_lock`, New the lock that is made of a source archive, and Locked `resolve`. They
--   run in the World of Publish and call its functions, those of Toolchain and `download` of
--   Build.
-- Discovery: Commit has `source_commit` of tools/build_core.py; Feed has `update_needed` and the
--   decisions of `main` of tools/check_stable.py, with the effects of Publish.
-- Signing: `validate_metadata` and `validated_core` of tools/release_core.py, and `lock_hash` of
--   tools/resolve_core.py. `json.dumps` and SHA-256 are parameters.
-- Helper: Lock has `validate_helper_lock` of tools/build_helper.py, Prepare
--   `prepare_helper_toolchain`. The contents of the two files that they read are the record
--   Checkout.
-- Build: `download` of tools/build_core.py, on the destination and its `.partial` file, whose
--   contents are the state Files. A response is its chunks and the failure that cuts it short, if
--   any.
-- Firmware: `squashfs_offset` of tools/firmware_compat.py.
-- Archive: Elf has `check_elf` of tools/artifact_utils.py, Members the members that `archive_tree`
--   writes.
-- Bundle: `prepare` of tools/prepare_bundle.py. Stage has what is collected and checked in the
--   temporary directory, Prepare the replacement of the three inputs of the package build, whose
--   steps may fail.
-- Package: Installer has `check_host_installer` of tools/package.py, Inputs the checks of
--   `build_packages` up to the loop over the platforms.
-- Relay: tools/smoke_httpdb.py. Bridge has `Bridge`: a step is what one thread does under the lock
--   or between two such parts, a run is any sequence of steps, and futures are named by the ids of
--   their requests. Forward has `Relay.forward`, with the bridge as a function.
--
-- Fuel: the scan of an image gets one round more than the image has bytes; each round goes past
-- the place that it found. A tag is followed four times, as in the code. The read-back makes three
-- attempts for each archive, as the code does.
--
-- What is not modelled: the text of an exception beyond a fixed message; the limit on the digits
-- of `int`; floats that are no number; in Publish, a failure in the middle of a response, which is
-- a failure of the request there; the names of temporary directories; failures of `mkdir`, and of
-- `rmtree` half way; the loop of `build_packages` over the platforms, and `stamp_ui`;
-- `Bridge.close` and the scenarios of tools/smoke_httpdb.py; `main` functions that parse arguments
-- and print; and the parts that only run external programs (compiling, unpacking firmware,
-- containers). The Go program under cmd/ and the plugin's shell scripts and pages are not part of
-- this development.
pub mod Common
pub mod Python
pub mod Toolchain
pub mod Publish
pub mod Firmware
pub mod CoreLock
pub mod Archive
pub mod Discovery
pub mod Signing
pub mod Helper
pub mod Build
pub mod Files
pub mod Relay
pub mod Resolve
pub mod Bundle
pub mod Package
