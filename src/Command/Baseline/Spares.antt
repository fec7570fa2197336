-- ===== src/Command/Baseline/Spares.antt =====
-- What `runBaseline` makes sure of before it leaves a fingerprint.
use osfp.Base.{
  ℕ, Bytes, Bool, true, false, not, ◌&&◌, List, [], Option, none, some, ==_iff, ◌≡◌, ◌⊎◌, inl, inr,
  refl, sym, ap,
}
use osfp.Exclude
use osfp.Scan.Walk.{Walker, root_of, walk_from}
use osfp.Scan.Settings.{MountPolicy, parse_mount_policy}
use osfp.Store.Meta.{Meta}
use osfp.Store.Writer.{Outcome}
use osfp.Store.Writer.Closing.{write_all}
use osfp.Command.Exit.{CommandError, usage, other}
use osfp.Command.Compare.Run.{Attempt, go, stop, given}
use osfp.Command.Compare.Checks.{
  bind-ends, then-ends, refuse-go, not-false, needed-some, checked-none, require_root-none,
}
use osfp.Command.Baseline.{
  Flags, System, Committed, uncommitted, unsynced, complete, Ending, committed, ended, closed,
  identify, target_of, scan_options, meta_for, exclusions, record_to, run_baseline,
}

may_write :
    (force exists : Bool) → (not force && exists) ≡ false → (force ≡ true) ⊎ (exists ≡ false)
may_write true exists h = inl refl
may_write false exists h = inr h

closed-go : (o : Outcome) (file : Bytes) → closed o ≡ go file → (o.1 ≡ none) × (o.0.file ≡ file)
closed-go (w, none) file h = (refl, cc h)
closed-go (w, some e) file h = absurd (cc h)

module _ (glob : Bytes → Bytes → Option Bool) (sink : Bytes → Bytes → ℕ × Option Bytes)
    (compress sha256 : Bytes → Bytes) (encode_meta : Meta → Bytes) (flags : Flags)
    (sys : System) where
  -- The writer behind the scan.
  abbrev written : Exclude.Set → MountPolicy → Bytes → Walker → Outcome
  written set policy k walked =
      write_all sink compress sha256 (encode_meta (meta_for flags sys set policy k)) walked.emitted

  -- All checks of the command up to the writing: where it is called well and the flags are understood,
  -- under the key and the exclusions that it makes, what the scan emits and the writer closes well, for
  -- a name where nothing was or that may be overwritten, with the privileges of root or a waiver.
  pub record Prepared : Type 0 where
    pub policy : MountPolicy
    pub k : Bytes
    pub paths : List Bytes
    pub from_file : List Bytes
    pub set : Exclude.Set
    pub walked : Walker
    pub called : flags.positional ≡ 0
    pub of_policy : parse_mount_policy flags.mounts ≡ some policy
    pub rooted : (sys.euid ≡ 0) ⊎ (flags.allow_non_root ≡ true)
    pub of_key : identify sys.info sys.detected flags.os_id ≡ go k
    pub spared : (flags.force ≡ true) ⊎ (sys.exists (target_of flags.out k) ≡ false)
    pub of_paths : sys.create (target_of flags.out k) ≡ some paths
    pub of_patterns :
        given [] flags.exclude_from (Exclude.load_patterns (sys.content flags.exclude_from))
        ≡ go from_file
    pub of_set : Exclude.new glob (exclusions flags sys from_file paths) ≡ some set
    pub scanned :
        walk_from glob sys.cpus
          (scan_options flags sys set policy)
          flags.root
          (sys.at (root_of flags.root))
        ≡ some walked
    pub closed_well : (written set policy k walked).1 ≡ none

  -- The file of the writer, with the metadata of the command, is under the target; there is no error, or
  -- the one of the sync of the directory.
  abbrev pub Left : Prepared → Ending → Type 0
  Left p r =
      (r.1 ≡ some (target_of flags.out p.k, (written p.set p.policy p.k p.walked).0.file))
      × (((r.0 ≡ none) × (sys.commits (target_of flags.out p.k) ≡ complete))
          ⊎ ((r.0 ≡ some other) × (sys.commits (target_of flags.out p.k) ≡ unsynced)))

  -- The command ended with an error and left no file, or `Left` holds.
  abbrev pub Ends : Ending → Type 0
  Ends r = ((e : CommandError) × (r ≡ (some e, none))) ⊎ ((p : Prepared) × Left p r)

  by_commit :
      (p : Prepared) (c : Committed) (file : Bytes)
      → sys.commits (target_of flags.out p.k) ≡ c
      → (written p.set p.policy p.k p.walked).0.file ≡ file
      → Ends (committed c (target_of flags.out p.k, file))
  by_commit p uncommitted file h same = inl (other, refl)
  by_commit p unsynced file h same =
      inr (p, (ap (λ f. some (target_of flags.out p.k, f)) (sym same), inr (refl, h)))
  by_commit p complete file h same =
      inr (p, (ap (λ f. some (target_of flags.out p.k, f)) (sym same), inl (refl, h)))

  -- `baseline` either ends with an error and leaves no file, or it leaves under its target the file that
  -- the writer closed without an error for the entries of its scan and the metadata of the command. In
  -- the second case it was called well, its flags, its key, its exclusions and its scan are without an
  -- error, the target did not exist or --force is given, the scan ran as root or --allow-non-root is given,
  -- and the command ends without an error, or with that of the sync of the directory that the commit
  -- makes behind the renaming.
  pub run_baseline-Ends : Ends (run_baseline glob sink compress sha256 encode_meta flags sys)
  unfolding run_baseline record_to
  run_baseline-Ends =
      let P : Attempt Ending → Type 0 = λ m. Ends (ended m) in
      let f : (e : CommandError) → P (stop e) = λ e. inl (e, refl) in
      then-ends P _ _ f (λ called. bind-ends P _ _ f (λ policy of_policy. then-ends P _ _ f (λ root.
        bind-ends P _ _ f (λ k of_key. then-ends P _ _ f (λ free.
          bind-ends P _ _ f (λ paths of_paths. bind-ends P _ _ f (λ from_file of_patterns.
            bind-ends P _ _ f (λ set of_set. bind-ends P _ _ f (λ walked scanned.
              bind-ends P _ _ f (λ file of_writer.
                let (good, same) = closed-go (written set policy k walked) file of_writer in
                by_commit
                  (record {
                    policy = policy;
                    k = k;
                    paths = paths;
                    from_file = from_file;
                    set = set;
                    walked = walked;
                    called = (==_iff flags.positional 0).0 (not-false _ (refuse-go _ usage called));
                    of_policy = needed-some _ policy of_policy;
                    rooted = require_root-none sys.euid flags.allow_non_root (checked-none _ root);
                    of_key = of_key;
                    spared = may_write flags.force _ (refuse-go _ other free);
                    of_paths = needed-some _ paths of_paths;
                    of_patterns = of_patterns;
                    of_set = needed-some _ set of_set;
                    scanned = needed-some _ walked scanned;
                    closed_well = good;
                  })
                  (sys.commits (target_of flags.out k)) file refl same))))))))))
