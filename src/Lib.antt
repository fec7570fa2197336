-- ===== src/Lib.antt =====
-- osfp takes a fingerprint of a filesystem and reports how a live system differs from it. This
-- library models the core of the program.
--
-- A scan (internal/scan) walks a subtree and emits one `Entry` per object in the canonical order
-- of paths (internal/canon), leaving out what the exclusions (internal/exclude) cover. A baseline
-- streams the entries into a container (internal/store) as blocks of front-coded entries. A
-- comparison pulls the entries of a fingerprint and feeds those of a live scan into the merge
-- join (internal/diff), which classifies each path, drops what the ignore rules and `--show`
-- drop, and hands the rest to a callback.
--
-- Base, Text, Filepath: byte strings, Go's integers, and the functions of Go's standard library
-- that the program calls. Text folds case and trims space as Go does on ASCII.
--
-- Canon: internal/canon/key.go (`CompareKey` is `compare_key`).
--
-- Entry: internal/scan/entry.go (`Entry`, `typeOf`, `unixMode`).
--
-- Humanize: internal/humanize/humanize.go. The rounding of a size by `fmt` is the parameter
-- `ratio`.
--
-- Exclude: internal/exclude/matcher.go and defaults.go (`New`, `add`, `addAuto`, `addOne`,
-- `Match`, `under`, `SelfPaths`, `LoadPatterns`). The glob matcher of path/filepath is the
-- parameter `glob`, whose `none` is its error.
--
-- Diff.Op, Diff.Classify, Diff.Ignore, Diff.Merge: internal/diff/op.go, classify.go, ignore.go
-- and merge.go. A `Joiner` is the struct of that name; each method takes it and returns it with
-- the error, if any. The fingerprint is the list of the answers of `Next`; the callback is the
-- parameter `emit`, and `emitted` records its calls. The loops of `Feed` and `Finish` run on
-- fuel, the number of answers left and two, which is enough since each round takes one answer.
-- Diff.Merge.Refine has the plain merge that the joiner is compared with, Diff.Merge.Pointwise
-- its meaning path by path, Diff.Merge.Join, Silent and Misordered whole comparisons.
--
-- Store: internal/store/format.go, writer.go (Store.Encode has `appendEntry`, Store.Writer the
-- rest), decode.go (Store.Decode) and reader.go: Store.Reader has `NewReader`, `readIndex` and
-- `readBlock`, Store.Cursor the cursor with `Iterate` and `Verify`, Store.RoundTrip the loop of
-- `Cursor.Next` over one block. That loop runs on the number of bytes and one, which is enough
-- since an entry takes a byte at least; the loops of `Iterate` and `Seek` run on any fuel, where
-- `no_fuel` is an error of the model alone, and Store.Cursor.Ends shows how much is enough.
-- `sort.Search` is the parameter `search` of Store.Cursor.Seek. Store.Meta has the metadata
-- (meta.go). The sums of the reader wrap around as int64 does. A buffer of a length below zero,
-- or past `max_alloc`, what a process can address on a 64-bit system, where it is not that of a
-- range of the file, is the error `panic`; memory for any other is taken to be there.
-- Store.Container joins the writer and the reader. A write gives the bytes that the file took and
-- its error, which the parameter `sink` decides; compression, SHA-256 and the decoder of the
-- metadata are parameters. The offsets of the writer are numbers without a bound, where the
-- program has an int64.
--
-- Scan.FsType, Scan.Tree, Scan.Settings, Scan.Walk: internal/scan/fstype.go and walk.go. The
-- answers of the system calls are a finite tree, so the recursion of `visit` is structural. A
-- cell of the ring holds the device of its entry, which is what `visit` reads after the cell was
-- committed. A directory that is listed with an error has the children that were read before it.
-- The root of a walk is a clean path, relative ones included; under the root `.` the paths of the
-- children have no dot, as `filepath.Join` gives them. Scan.Walk.Compared joins two walks.
--
-- Scan.Ring: the goroutines of `Walk`, with reorder.go and hash.go. A `Step` is one of the walk,
-- of a worker or of the consumer on the shared cells and channels, in any order
-- (Scan.Ring.Steps); `visit` is to it the list of the entries that it commits, which
-- Scan.Walk.Hashed takes from Scan.Walk. The callback may fail and the caller's context may be
-- cancelled. `contents` is what opening and reading a path gives, the same at all times.
--
-- OsDetect: internal/osdetect. OsDetect.Key has the description of a system and its key
-- (osdetect.go), OsDetect.Release the format of os-release (osrelease.go), OsDetect.Host the
-- detectors, one module for each file, and OsDetect.Detect the choice of one. The functions of
-- `env` are the fields of `Env`, where `none` is an error; the tokens of an XML document are a
-- field as well. A map is a list of pairs, the last write first.
--
-- Report: internal/report/text.go, from `Change` to the sections that `Close` prints. Formatted
-- text is passed to `print`; the number of characters in a path is the parameter `characters`.
-- Report.Heading has its heading, its summary and the notes on mount points, Report.Header what
-- report.go passes to a reporter, and Report.Json the records of json.go. The formats of times
-- and durations and the encoder of a record are parameters. A text and a JSON report are written
-- to a `sink` as the container is.
--
-- Command.Compare: cmd/osfp/compare.go. Command.Compare has `loadDirs`, the closure `Descend`,
-- `summarizeDir` and the cursor as the source of the joiner (`pulls`), Command.Compare.Run the
-- steps of `runCompare` on flags that are parsed, with the answers of the system as the fields of
-- `System`. Its result is the error and the changes that the reporter was given; the fuel bounds
-- the loops over the fingerprint. Command.Baseline: baseline.go in the same way, where the result
-- is the error and the file that is left, and Command.Progress its `progress`. Command.Dispatch:
-- the table of commands and the routing of main.go. Command.Version and Command.Info: version.go
-- and info.go.
--
-- Command.Atomic: cmd/osfp/atomic.go, as steps from state to state; Command.Whole says what
-- stands under the name of such a file. Command.Exit: the exit codes of main.go, root.go and
-- compare.go, and the checks that lead to them; Command.Drift is about `--fail-on-diff`.
--
-- Tests: concrete runs.
--
-- Not modelled: compression and digest, which the program takes from other packages, and the JSON
-- of the metadata and of a record; the platform's system calls; the parsing of flags, the
-- messages of errors and the usage text; the notes and the summary that `baseline` prints. The
-- callback of a comparison is a parameter, so that `run_compare` holds for the reporter of either
-- format, and the heading and the end of a report are to it two answers of the system.
pub mod Base
pub mod Text
pub mod Canon
pub mod Entry
pub mod Humanize
pub mod Filepath
pub mod Exclude
pub mod Diff
pub mod Store
pub mod Scan
pub mod OsDetect
pub mod Command
pub mod Report
pub mod Tests
