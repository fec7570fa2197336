-- ===== src/Command/Compare/Checked.antt =====
-- What `runCompare` makes sure of before it reports a change.
use osfp.Base.{
  ℕ, Bytes, Bool, true, false, List, [], Option, some, bytes_eq, ◌≡◌, ◌⊎◌, inl, inr, refl,
}
use osfp.Entry.{Entry}
use osfp.Exclude
use osfp.Diff.Op.{OpSet}
use osfp.Diff.Ignore.{Ignore, load_ignore}
use osfp.Diff.Merge.{Change, DirSummary, join_all}
use osfp.Scan.Walk.{Walker, root_of, walk_from}
use osfp.Scan.Settings.{MountPolicy, parse_mount_policy, Options}
use osfp.Store.Reader.{Reader, ReadError, ok, new_reader}
use osfp.Store.Meta.{Meta, meta_of}
use osfp.Store.Cursor.{iterate, start, verify}
use osfp.OsDetect.Key.{key}
use osfp.Report.{Format, format_of}
use osfp.Command.Exit.{CommandError, usage, other, is_privileged}
use osfp.Command.Compare.{NewDirMode, parse_mode, load_dirs, pulls}
use osfp.Command.Compare.Run.{
  Flags, System, Attempt, go, stop, given, read_ops, no_rules, Report, reported, ended,
  scan_options, summarizer, exclusions, compare_with, run_compare,
}
use osfp.Command.Compare.Checks.{
  bind-ends, then-ends, refuse-go, not-false, either_waived, called_well, needed-some, loaded-ok,
  checked-none, require_root-none, check_comparable-none,
}

-- The command ends with an error and has reported nothing.
abbrev pub Stops : Report → Type 0
Stops r = (e : CommandError) × (r ≡ (some e, []))

module _ (glob : Bytes → Bytes → Option Bool) (ratio : ℕ → ℕ → Bytes) (sha256 : Bytes → Bytes)
    (decompress : Bytes → Option Bytes) (is_meta : Bytes → Bool) (decode_meta : Bytes → Meta)
    (message : ReadError → Bytes) (cpus : ℕ) (emit : Change → Option Bytes) where
  abbrev excluded : Flags → System → Meta → List Bytes → Exclude.Options
  excluded = exclusions glob ratio sha256 decompress is_meta decode_meta message cpus emit

  abbrev scans : Flags → Meta → Exclude.Set → MountPolicy → NewDirMode → List Bytes → Options
  scans = scan_options glob ratio sha256 decompress is_meta decode_meta message cpus emit

  abbrev summaries : System → Options → NewDirMode → Option (Bytes → Option DirSummary)
  summaries = summarizer glob ratio sha256 decompress is_meta decode_meta message cpus emit

  -- The command is called well, the fingerprint opens, its digest is right, and it describes this
  -- system and this privilege, as far as the flags do not waive it.
  pub record Permitted (flags : Flags) (sys : System) : Type 0 where
    pub file : Bytes
    pub reader : Reader
    pub mode : NewDirMode
    pub policy : MountPolicy
    pub called : (flags.positional ≡ 0) × (bytes_eq flags.base [] ≡ false)
    pub of_mode : parse_mode flags.new_dirs ≡ some mode
    pub found : sys.content flags.base ≡ some file
    pub opened : new_reader decompress is_meta file ≡ ok reader
    pub verified : verify sha256 reader ≡ ok tt
    pub of_policy : parse_mount_policy (meta_of decode_meta reader).scan.mounts ≡ some policy
    pub detected : (sys.detected ≡ true) ⊎ (flags.allow_mismatch ≡ true)
    pub rooted : (sys.euid ≡ 0) ⊎ (flags.allow_non_root ≡ true)
    pub named : (key sys.info ≡ (meta_of decode_meta reader).key) ⊎ (flags.allow_mismatch ≡ true)
    pub alike : (meta_of decode_meta reader).privileged ≡ is_privileged sys.euid

  -- Behind that the entries of the fingerprint are decoded, the exclusions and the flags are read, the
  -- scan root is a directory, the scan starts, and the report is that of the joiner.
  pub record Compared (fuel : ℕ) (flags : Flags) (sys : System) (reader : Reader)
      (mode : NewDirMode) (policy : MountPolicy) (r : Report) : Type 0 where
    pub auto : List Bytes
    pub olds : List Entry
    pub set : Exclude.Set
    pub format : Format
    pub show : Option OpSet
    pub ignore : Ignore
    pub walked : Walker
    pub of_auto : given [] flags.out (sys.create flags.out) ≡ go auto
    pub decoded : iterate decompress reader.file fuel (start reader) ≡ ok olds
    pub of_set : Exclude.new glob (excluded flags sys (meta_of decode_meta reader) auto) ≡ some set
    pub of_format : format_of flags.format ≡ some format
    pub of_show : read_ops flags.show ≡ go show
    pub of_ignore :
        given no_rules flags.ignore_from (load_ignore glob (sys.content flags.ignore_from))
        ≡ go ignore
    pub is_there : sys.is_dir (meta_of decode_meta reader).scan.root ≡ true
    pub headed : sys.heading_taken ≡ true
    pub scanned :
        walk_from glob cpus
          (scans flags (meta_of decode_meta reader) set policy mode (load_dirs olds))
          (meta_of decode_meta reader).scan.root
          (sys.at (root_of (meta_of decode_meta reader).scan.root))
        ≡ some walked
    pub outcome :
        r
        ≡ reported sys.report_taken flags.fail_on_diff (Exclude.is_volatile set) (
            join_all ratio glob emit
              (pulls decompress reader.file message fuel (start reader))
              (record {
                show = show;
                ignore = ignore;
                summarize =
                    summaries sys
                      (scans flags (meta_of decode_meta reader) set policy mode (load_dirs olds))
                      mode;
              })
              walked.emitted)

  compare_with-Compared :
      (fuel : ℕ) (flags : Flags) (sys : System) (mode : NewDirMode) (policy : MountPolicy)
      (reader : Reader)
      → let r = ended (
          compare_with glob ratio sha256 decompress is_meta decode_meta message cpus emit fuel flags
            sys mode policy reader) in
        Stops r ⊎ Compared fuel flags sys reader mode policy r
  unfolding compare_with
  compare_with-Compared fuel flags sys mode policy reader =
      let P : Attempt Report → Type 0 =
        λ m. Stops (ended m) ⊎ Compared fuel flags sys reader mode policy (ended m) in
      let f : (e : CommandError) → P (stop e) = λ e. inl (e, refl) in
      bind-ends P _ _ f (λ auto of_auto. bind-ends P _ _ f (λ olds decoded.
        bind-ends P _ _ f (λ set of_set. bind-ends P _ _ f (λ format of_format.
          bind-ends P _ _ f (λ show of_show. bind-ends P _ _ f (λ ignore of_ignore.
            then-ends P _ _ f (λ is_there. then-ends P _ _ f (λ headed.
              bind-ends P _ _ f (λ walked scanned. inr (record {
                auto = auto;
                olds = olds;
                set = set;
                format = format;
                show = show;
                ignore = ignore;
                walked = walked;
                of_auto = of_auto;
                decoded = loaded-ok _ olds decoded;
                of_set = needed-some _ set of_set;
                of_format = needed-some _ format of_format;
                of_show = of_show;
                of_ignore = of_ignore;
                is_there = not-false _ (refuse-go _ other is_there);
                headed = not-false _ (refuse-go _ other headed);
                scanned = needed-some _ walked scanned;
                outcome = refl;
              }))))))))))

  -- On any fuel, flags and system, `compare` either ends with an error and has reported no change, or
  -- every check of it holds and its changes and its error are those of the joiner. The checks are that
  -- there is a base and no argument, that the flags are understood, that the fingerprint is found, opens,
  -- passes the verification of its digest and is decoded on the fuel, that its mount policy is known,
  -- that the system is detected or this is waived by a flag, that the key of the system is that of the
  -- fingerprint or this is waived, that the privileges of the scan are those of the fingerprint and are
  -- those of root or waived, that the exclusions are accepted, that the scan root is a directory, that
  -- the heading is written, and that the scan starts.
  pub run_compare-Permitted :
      (fuel : ℕ) (flags : Flags) (sys : System)
      → let r =
          run_compare glob ratio sha256 decompress is_meta decode_meta message cpus emit fuel flags
            sys in
        Stops r ⊎ ((p : Permitted flags sys) × Compared fuel flags sys p.reader p.mode p.policy r)
  unfolding run_compare
  run_compare-Permitted fuel flags sys =
      let P : Attempt Report → Type 0 = λ m.
        Stops (ended m)
        ⊎ ((p : Permitted flags sys) × Compared fuel flags sys p.reader p.mode p.policy
              (ended m)) in
      let f : (e : CommandError) → P (stop e) = λ e. inl (e, refl) in
      then-ends P _ _ f (λ called. bind-ends P _ _ f (λ mode of_mode. then-ends P _ _ f (λ root.
        bind-ends P _ _ f (λ file found. bind-ends P _ _ f (λ reader opened.
          bind-ends P _ _ f (λ whole verified. bind-ends P _ _ f (λ policy of_policy.
            then-ends P _ _ f (λ detected. then-ends P _ _ f (λ comparable.
              let meta = meta_of decode_meta reader in
              let (named, alike) =
                check_comparable-none meta.key meta.privileged sys.info sys.euid
                  flags.allow_mismatch (checked-none _ comparable) in
              elim (compare_with-Compared fuel flags sys mode policy reader) [
                | inl stops ↦ inl stops
                | inr compared ↦ inr (
                  record {
                    file = file;
                    reader = reader;
                    mode = mode;
                    policy = policy;
                    called = called_well flags.positional flags.base (refuse-go _ usage called);
                    of_mode = needed-some _ mode of_mode;
                    found = needed-some _ file found;
                    opened = loaded-ok _ reader opened;
                    verified = loaded-ok _ tt verified;
                    of_policy = needed-some _ policy of_policy;
                    detected = either_waived _ _ (refuse-go _ other detected);
                    rooted = require_root-none sys.euid flags.allow_non_root (checked-none _ root);
                    named = named;
                    alike = alike;
                  },
                  compared,
                )
              ])))))))))
