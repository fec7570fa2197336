-- ===== src/Tests/Compare.antt =====
-- The theorems on comparisons, on small examples.
use mathlib.Core.Path.{subst}
use osfp.Base.{
  pos, ap, sym, replicate, ℕ, zero, suc, ◌+◌, ◌<◌, ◌≤◌, Bytes, codes, Bool, true, false, Bool-cases,
  List, [], ◌∷◌, none, some, length, All, if◌then◌else◌, ◌≡◌, ◌⊎◌, inl, inr, refl, arith,
}
use osfp.Base.Int.{to_u64}
use osfp.Canon.{slash, compare_key}
use osfp.Entry.{Entry, type_of, unix_mode}
use osfp.Diff.Merge.{join_all}
use osfp.Diff.Merge.Pointwise.{find, changes_at, diff_at, delivered}
use osfp.Scan.Tree.{nil, there}
use osfp.Scan.Settings
use osfp.Scan.Walk
use osfp.Scan.Walk.Names.{IsListed, IsListedListing, IsListedChildren}
use osfp.Store.Encode.{entry_bytes, append_entry, shared_prefix}
use osfp.Store.Varint.{put_uvarint, zigzag}
use osfp.Store.Container
use osfp.Store.Reader.{Reader, ok, ◌>>=◌, new_reader}
use osfp.Store.RoundTrip.Steps.{IsStorable}
use osfp.Store.Writer as W
use osfp.Store.Writer.Closing.{index_section, write_all}
use osfp.Store.Writer.{put_le}
use osfp.Store.Meta.{Meta}
use osfp.Store.Cursor.{iterate, start, verify}
use osfp.Store.Cursor.Seek.{seek}
use osfp.Store.Cursor.Sought.{IsMonotone}
use osfp.Store.Cursor.Sought.Keys.{from_path}
use osfp.Command.Compare.{new_dir_skip, descends, pulls}
use osfp.Command.Compare.Run.{Flags, System, finish_compare, run_compare}
use osfp.Command.Compare.Recorded
use osfp.Command.Compare.Unchanged
use osfp.Command.Compare.Unchanged.{IsRead}
use osfp.Command.Exit.{exit_code, exit_ok}
use osfp.Entry.Sorted.{IsSorted}
use osfp.Store.Container.Found.{ReadsBack}
use osfp.Store.RoundTrip.{HasPath}
use osfp.Command.Compare.Pruned
use osfp.Command.Compare.Checked
use osfp.Command.Compare.Checked.{Stops, Permitted, Compared}
use osfp.Tests.{
  disk, plain, no_digest, any_meta, olds, olds-IsSorted, no_ratio, no_glob, accept, show_all,
  scan_options, dir, tree, tree-IsListed, debian,
}
use osfp.Tests.Stores.{usr_ls-IsStorable, usr_rm-IsStorable, written_small}

-- A search from the left.
abbrev first_from : ℕ → (ℕ → Bool) → ℕ
first_from zero f = zero
first_from (suc n) f = let rest = first_from n (λ i. f (suc i)) in if f zero then zero else suc rest

first_from-within : (n : ℕ) (f : ℕ → Bool) → first_from n f ≤ n
first_from-within zero f = omega arith
first_from-within (suc n) f = elim (Bool-cases (f zero)) [
  | inl here ↦ rw here (omega arith)
  | inr later ↦ rw later (omega (arith, first_from-within n (λ i. f (suc i))))
]

first_from-fails :
    (n : ℕ) (f : ℕ → Bool) → IsMonotone n f → (i : ℕ) → i < first_from n f → f i ≡ false
first_from-fails zero f m i h = absurd (omega arith)
first_from-fails (suc n) f m zero h = elim (Bool-cases (f zero)) [
  | inl here ↦ absurd (let h' : zero < zero = rw here at h in omega (arith, h'))
  | inr later ↦ later
]
first_from-fails (suc n) f m (suc i) h = elim (Bool-cases (f zero)) [
  | inl here ↦ absurd (let h' : suc i < zero = rw here at h in omega (arith, h'))
  | inr later ↦
      let h' : suc i < suc (first_from n (λ i. f (suc i))) = rw later at h in
      first_from-fails n (λ i. f (suc i)) (λ i k. m (suc i) (omega (arith, k))) i
        (omega (arith, h'))
]

write_all-seek_example :
    (new_reader some any_meta (write_all disk plain no_digest (codes "{}") olds).0.file >>= λ r.
    seek some
      (write_all disk plain no_digest (codes "{}") olds).0.file
      (codes "/usr/m")
      first_from
      3
      r
    >>= iterate some (write_all disk plain no_digest (codes "{}") olds).0.file 3)
    ≡ ok (from_path (codes "/usr/m") olds)
write_all-seek_example =
    Container.write_all-seek disk plain no_digest some any_meta (codes "{}") olds first_from
      (codes "/usr/m") (λ f p. refl) (λ raw. refl) (λ raw h. omega arith) (λ p. refl) refl
      (omega arith) first_from-within first_from-fails (usr_ls-IsStorable, (usr_rm-IsStorable, tt))
      ((λ h. cc), ((λ h. cc), tt)) olds-IsSorted (omega arith) (omega (arith, written_small))
      (omega (arith, written_small))

-- A directory that is known has entries, and a new one is not entered.
abbrev skipping : Settings.Options
skipping = record scan_options { descend = some (descends new_dir_skip (codes "/" ∷ [])) }

-- An empty directory, as the first walk finds it.
abbrev bare : List Entry
bare = (Walk.walk no_glob scan_options (slash ∷ []) (dir nil)).emitted

abbrev bare_file : W.Writer
bare_file = (write_all disk plain no_digest (codes "{}") bare).0

abbrev root_entry : Entry
root_entry = record {
  path = codes "/";
  type = 100;
  mode = 0o755;
  uid = 0;
  gid = 0;
  size = pos 3;
  mtime = pos 0;
  hash = replicate 32 0;
  hashed = false;
  partial = false;
  link = [];
  dev = 1;
  ino = 0;
  nlink = 1;
  err = [];
}

bare_is : bare ≡ root_entry ∷ []
unfolding Walk.walk Walk.visit Walk.visit_listing Walk.visit_children Walk.fill type_of
    Walk.may_descend Walk.acquire unix_mode
bare_is = refl

root_entry-IsStorable : IsStorable root_entry
root_entry-IsStorable = record {
  type_fits = omega arith;
  mode_fits = omega arith;
  uid_fits = omega arith;
  gid_fits = omega arith;
  size_fits = omega arith;
  mtime_fits = omega arith;
  hash_fits = refl;
  hash_zero = λ h. refl;
  path_fits = omega arith;
  link_fits = omega arith;
  err_fits = omega arith;
  dev_fits = omega arith;
  ino_fits = omega arith;
  nlink_fits = omega arith;
}

bare_small :
    (length bare_file.file ≡ 181)
    × (length (index_section disk plain no_digest bare_file.index) ≡ 5)
unfolding W.new_writer W.add_all W.add W.close W.write W.write_raw W.write_packed W.flush_block
    W.write_index W.put_all put_le W.index_bytes compare_key append_entry entry_bytes put_uvarint
    shared_prefix to_u64 zigzag Walk.walk Walk.visit Walk.visit_listing Walk.visit_children
    Walk.fill type_of Walk.may_descend Walk.acquire unix_mode
bare_small = (refl, refl)

compare-written_example :
    (r : Reader) × (new_reader some any_meta
        (write_all disk plain no_digest (codes "{}") bare).0.file
      ≡ ok r)
    × (verify no_digest r ≡ ok tt)
    × (let source =
          pulls some
            (write_all disk plain no_digest (codes "{}") bare).0.file
            (λ e. codes "damaged")
            (length bare + 1)
            (start r) in
        let lives = (Walk.walk no_glob scan_options (slash ∷ []) tree).emitted in
        ((join_all no_ratio no_glob accept source show_all lives).1 ≡ none)
        × (changes_at
              (codes "/b")
              (join_all no_ratio no_glob accept source show_all lives).0.emitted
            ≡ delivered no_glob show_all
                (diff_at no_ratio (find (codes "/b") bare) (find (codes "/b") lives))))
compare-written_example =
    Recorded.compare-written disk plain no_digest some any_meta (codes "{}") no_ratio no_glob accept
      (λ e. codes "damaged") scan_options scan_options show_all (slash ∷ []) (slash ∷ [])
      (codes "/b") (dir nil) tree (λ f p. refl) (λ raw. refl) (λ raw h. omega arith) (λ p. refl)
      refl (omega arith) (λ c. refl) refl refl
      (unfold IsListed IsListedListing IsListedChildren in tt) tree-IsListed
      (subst (All IsStorable) (sym bare_is) (root_entry-IsStorable, tt))
      (omega (arith, ap (length {0}) bare_is)) (omega (arith, bare_small))
      (omega (arith, bare_small))

abbrev flags : Flags
flags = record {
  base = codes "base.osfp";
  format = codes "text";
  out = [];
  show = [];
  new_dirs = codes "skip";
  ignore_from = [];
  exclude = [];
  jobs = 2;
  allow_mismatch = false;
  allow_non_root = false;
  fail_on_diff = true;
  positional = 0;
}

abbrev meta : Bytes → Meta
meta payload = record {
  tool = codes "osfp";
  tool_version = codes "devel";
  created_at = pos 0;
  key = codes "linux-debian-12.-rc-amd64";
  system = debian;
  privileged = true;
  euid = 0;
  scan = record {
    root = codes "/";
    mounts = codes "local";
    max_depth = 64;
    max_file_size = 0;
    jobs = 2;
  };
  exclusions = [];
  entries = pos 0;
  errors = pos 0;
  blocks = pos 0;
}

abbrev system : System
system = record {
  euid = 0;
  info = debian;
  detected = true;
  executable = some (codes "/usr/bin/osfp");
  resolve = λ path. none;
  content = λ path. some (write_all disk plain no_digest (codes "{}") bare).0.file;
  create = λ path. none;
  at = λ path. there tree;
  is_dir = λ path. true;
  heading_taken = true;
  report_taken = true;
}

run_compare-Permitted_example :
    let r =
      run_compare no_glob no_ratio no_digest some any_meta meta
        (λ e. codes "damaged")
        4
        accept
        2
        flags
        system in
    Stops r
    ⊎ ((p : Permitted no_glob no_ratio no_digest some any_meta meta
          (λ e. codes "damaged")
          4
          accept
          flags
          system)
        × Compared no_glob no_ratio no_digest some any_meta meta
            (λ e. codes "damaged")
            4
            accept
            2
            flags
            system
            p.reader
            p.mode
            p.policy
            r)
run_compare-Permitted_example =
    Checked.run_compare-Permitted no_glob no_ratio no_digest some any_meta meta
      (λ e. codes "damaged") 4 accept 2 flags system

bare_back :
    ReadsBack no_digest some any_meta
      (codes "{}")
      bare
      (write_all disk plain no_digest (codes "{}") bare).0.file
bare_back =
    (Container.write_all-ReadsBack disk plain no_digest some any_meta (codes "{}") bare
      (λ f p. refl) (λ raw. refl) (λ raw h. omega arith) (λ p. refl) refl (omega arith)
      (subst (All IsStorable) (sym bare_is) (root_entry-IsStorable, tt))
      (subst (All HasPath) (sym bare_is) ((λ h. cc), tt)) (subst IsSorted (sym bare_is) (tt, tt))
      (omega (arith, ap (length {0}) bare_is)) (omega (arith, bare_small))
      (omega (arith, bare_small))).1

compare-unchanged_example :
    let source =
      pulls some
        (write_all disk plain no_digest (codes "{}") bare).0.file
        (λ e. codes "damaged")
        (length bare + 1)
        (start bare_back.reader) in
    let o = join_all no_ratio no_glob accept source show_all bare in
    (o.1 ≡ none)
    × (o.0.emitted ≡ [])
    × (exit_code (finish_compare true true (λ path. false) o) ≡ exit_ok)
compare-unchanged_example =
    Unchanged.compare-unchanged no_ratio no_glob accept some (λ e. codes "damaged")
      (write_all disk plain no_digest (codes "{}") bare).0.file bare_back.reader bare
      (length bare + 1) show_all true (λ path. false) (λ c. refl)
      (subst IsSorted (sym bare_is) (tt, tt)) (subst (All IsRead) (sym bare_is) (refl, tt))
      bare_back.iterated

-- A directory with more in it than the fingerprint has: `compare --fail-on-diff` exits with 1.
compare_drifts :
    exit_code
      (run_compare no_glob no_ratio no_digest some any_meta meta
        (λ e. codes "damaged")
        4
        accept
        2
        flags
        system).0
    ≡ 1
unfolding osfp.Exclude.self_paths osfp.Base.Int64.add_i64 osfp.Entry.type_of osfp.Entry.unix_mode
    osfp.Text.equal_fold osfp.Filepath.join_path osfp.OsDetect.Key.scan_bytes
    osfp.OsDetect.Key.trim_start osfp.OsDetect.Key.trim_end osfp.OsDetect.Key.normalize_component
    osfp.OsDetect.Key.add_part osfp.OsDetect.Key.parts_of osfp.OsDetect.Key.key
    osfp.Exclude.is_volatile osfp.Exclude.Defaults.volatile_of osfp.Scan.Settings.parse_mount_policy
    osfp.Scan.Settings.set_defaults osfp.Scan.Walk.acquire osfp.Scan.Walk.may_descend
    osfp.Scan.Walk.fill osfp.Scan.Walk.emit_error osfp.Scan.Walk.walk osfp.Scan.Walk.walk_from
    osfp.Scan.Walk.visit osfp.Store.Varint.put_uvarint osfp.Store.Varint.get_uvarint
    osfp.Store.Varint.zigzag osfp.Store.Encode.shared_prefix osfp.Store.Encode.flags_of
    osfp.Store.Encode.entry_flags osfp.Store.Encode.entry_bytes osfp.Store.Encode.append_entry
    osfp.Store.Decode.◌>>=◌ osfp.Store.Decode.pure osfp.Store.Decode.is_good
    osfp.Store.Decode.uvarint osfp.Store.Decode.varint osfp.Store.Decode.u8
    osfp.Store.Decode.take_bytes osfp.Store.Decode.str osfp.Store.Decode.read_links
    osfp.Store.Decode.reset osfp.Store.Decode.read_fields osfp.Store.Decode.next
    osfp.Store.Reader.get_le osfp.Store.Reader.read_at osfp.Store.Reader.check_header
    osfp.Store.Reader.read_ref osfp.Store.Reader.read_refs osfp.Store.Reader.parse_index
    osfp.Store.Reader.unpack osfp.Store.Reader.read_block osfp.Store.Reader.read_index
    osfp.Store.Reader.read_sections osfp.Store.Reader.new_reader osfp.Store.Cursor.start
    osfp.Store.Cursor.next_entry osfp.Store.Cursor.cursor_next osfp.Store.Cursor.iterate
    osfp.Store.Cursor.verify osfp.Store.Writer.put_le osfp.Store.Writer.write
    osfp.Store.Writer.write_raw osfp.Store.Writer.write_packed osfp.Store.Writer.flush_block
    osfp.Store.Writer.add osfp.Store.Writer.index_bytes osfp.Store.Writer.write_index
    osfp.Store.Writer.put_all osfp.Store.Writer.close osfp.Store.Writer.new_writer
    osfp.Store.Writer.add_all osfp.Diff.Op.op_string osfp.Diff.Classify.op_for_missing
    osfp.Diff.Classify.compare_unhashed osfp.Diff.Ignore.parse_ignore osfp.Diff.Ignore.match_rules
    osfp.Diff.Ignore.match osfp.Diff.Ignore.rules_as_written osfp.Diff.Merge.total
    osfp.Diff.Merge.advance osfp.Diff.Merge.join_all osfp.Command.Exit.exit_code
    osfp.Command.Exit.prints osfp.Command.Exit.require_root osfp.Command.Exit.check_comparable
    osfp.Command.Exit.expected osfp.Command.Exit.compare_end osfp.Command.Compare.mode_string
    osfp.Command.Compare.parse_mode osfp.Command.Compare.load_dirs osfp.Command.Compare.is_known
    osfp.Command.Compare.descends osfp.Command.Compare.pulls osfp.Command.Compare.summarize_dir
    osfp.Command.Compare.Run.◌>>=◌ osfp.Command.Compare.Run.◌>>◌
    osfp.Command.Compare.Run.compare_with osfp.Command.Compare.Run.run_compare osfp.Report.heading
    osfp.Report.format_of
compare_drifts = refl
