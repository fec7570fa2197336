-- ===== src/Report/Json/Latched.antt =====
-- The error of a JSON report, and the lines that a report without one has.
use mathlib.Core.List.{append_assoc, append-nil}
use osfp.Base.{
  ℕ, Bytes, List, [], ◌∷◌, ◌++◌, Option, none, some, Option-cases, length, take, take_append, ℤ,
  ◌≡◌, inl, inr, sym, ap, ◌∙◌,
}
use osfp.Diff.Merge.{Change}
use osfp.Report.Header.{Header, Summary}
use osfp.Report.Json.{
  Record, header_line, change_line, summary_line, header_record, change_record, stats_record,
  JsonReporter, new_json_reporter, write_record, put_header, put_change, put_changes, put_summary,
  json_report,
}

take_all : (p : Bytes) → take (length p) p ≡ p
take_all p = ap (take (length p)) (sym (append-nil p)) ∙ take_append p []

module _ (stamp : ℤ → Bytes) (encode : Record → Bytes) (sink : Bytes → Bytes → ℕ × Option Bytes)
    (whole : (f p : Bytes) → (sink f p).1 ≡ none → (sink f p).0 ≡ length p) where
  abbrev put : Record → JsonReporter → JsonReporter
  put r j = write_record stamp encode sink r j

  write-none :
      (r : Record) (j : JsonReporter)
      → (put r j).err ≡ none
      → (j.err ≡ none) × ((put r j).out ≡ j.out ++ encode r)
  unfolding write_record
  write-none r j h = elim (Option-cases j.err) [
    | inl fine ↦
        let h' : (sink j.out (encode r)).1 ≡ none = rw fine at h in
        (fine, rw (fine, whole j.out (encode r) h') (ap (λ p. j.out ++ p) (take_all (encode r))))
    | inr (e, latched) ↦ let h' : some e ≡ none = rw latched at h in absurd (cc h')
  ]

  -- The lines of some changes.
  abbrev pub change_lines : List Change → Bytes
  change_lines [] = []
  change_lines (c ∷ cs) =
      encode (change_line (change_record stamp encode sink c)) ++ change_lines cs

  put_changes-none :
      (cs : List Change) (j : JsonReporter)
      → (put_changes stamp encode sink cs j).err ≡ none
      → (j.err ≡ none) × ((put_changes stamp encode sink cs j).out ≡ j.out ++ change_lines cs)
  unfolding put_changes put_change
  put_changes-none [] j h = (h, sym (append-nil j.out))
  put_changes-none (c ∷ cs) j h =
      let line = change_line (change_record stamp encode sink c) in
      let (fine, out) = put_changes-none cs (put line j) h in
      let (before, here) = write-none line j fine in
      (
        before,
        out
            ∙ ap (λ o. o ++ change_lines cs) here
            ∙ append_assoc j.out (encode line) (change_lines cs),
      )

  -- A JSON report that ends without an error consists of the lines of its header, of every change in
  -- their order and of its summary. The destination is one that takes a whole line where it reports no
  -- error.
  pub json_report-lines :
      (h : Header) (cs : List Change) (s : Summary)
      → (json_report stamp encode sink h cs s).err ≡ none
      → (json_report stamp encode sink h cs s).out
        ≡ encode (header_line (header_record h))
          ++ (change_lines cs ++ encode (summary_line (stats_record s)))
  unfolding json_report put_header put_summary new_json_reporter
  json_report-lines h cs s fine =
      let first = put (header_line (header_record h)) (record { out = []; err = none }) in
      let (going, end) =
        write-none (summary_line (stats_record s)) (put_changes stamp encode sink cs first) fine in
      let (begun, middle) = put_changes-none cs first going in
      let (fresh, start) =
        write-none (header_line (header_record h)) (record { out = []; err = none }) begun in
      end
      ∙ ap (λ o. o ++ encode (summary_line (stats_record s)))
          (middle ∙ ap (λ o. o ++ change_lines cs) start)
      ∙ append_assoc (encode (header_line (header_record h))) (change_lines cs)
          (encode (summary_line (stats_record s)))
