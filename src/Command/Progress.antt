-- ===== src/Command/Progress.antt =====
-- cmd/osfp/baseline.go: what a long scan reports on its progress. The clock is an argument, and so are
-- the formats of a size and of a duration; a line is the list of its characters.
pub mod Erased
use osfp.Base.{
  ℕ, ◌+◌, ◌-◌, ◌%◌, ◌≤◌, ◌<◌, Bytes, codes, Bool, true, false, not, ◌&&◌, List, [], ◌∷◌, ◌++◌, ltb,
  ◌==◌, ℤ, pos, add_i64, if◌then◌else◌, length, take, replicate, ◌≡◌, refl, arith,
}
use osfp.Entry.{Entry}
use osfp.Humanize.{count}

-- `progress`, with what it has drawn on the terminal or written as lines
pub record Progress : Type 0 where
  pub enabled : Bool
  pub terminal : Bool
  pub next : ℕ
  pub entries : ℕ
  pub bytes : ℤ
  pub started : ℕ
  pub width : ℕ
  pub shown : List Bytes

abbrev pub progress_width : ℕ
progress_width = 79

-- A second, in nanoseconds.
abbrev pub second : ℕ
second = 1000000000

-- `newProgress`
unfoldable pub new_progress : Bool → Bool → ℕ → Progress
new_progress enabled terminal now = record {
  enabled = enabled;
  terminal = terminal;
  next = now + second;
  entries = 0;
  bytes = pos 0;
  started = now;
  width = 0;
  shown = [];
}

abbrev pub max : ℕ → ℕ → ℕ
max a b = if ltb a b then b else a

-- `%-*s`: a line, padded to a width
abbrev pub padded : ℕ → Bytes → Bytes
padded width line = line ++ replicate (width - length line) b' '

-- The line, redrawn in place
abbrev pub draw : Bytes → Progress → Progress
draw text p =
    let line = take progress_width text in
    let width = max p.width (length line) in
    record p { width = width; shown = padded width line ∷ p.shown }

abbrev pub counted : Entry → Progress → Progress
counted e p = record p {
  entries = p.entries + 1;
  bytes = if e.hashed then add_i64 p.bytes e.size else p.bytes;
}

module _ (size : ℤ → Bytes) (duration : ℕ → Bytes) where
  abbrev pub status : Progress → ℕ → Bytes
  status p now =
      codes "  "
      ++ count (pos p.entries)
      ++ codes " entries, "
      ++ size p.bytes
      ++ codes " hashed, "
      ++ duration (now - p.started)

  abbrev pub update : Entry → ℕ → Progress → Progress
  update e now p =
      if p.terminal
      then draw (status p now ++ codes "  " ++ e.path) (record p { next = now + second })
      else record p { next = now + second; shown = (status p now ++ codes "\n") ∷ p.shown }

  -- `tick`, at a time
  unfoldable pub tick : Entry → ℕ → Progress → Progress
  tick e now p =
      if not p.enabled
      then p
      else if not ((p.entries + 1) % 512 == 0)
      then counted e p
      else if ltb now p.next
      then counted e p
      else update e now (counted e p)

-- `done`: what it erases
unfoldable pub erased : Progress → ℕ
erased p = if p.enabled && p.terminal && ltb 0 p.width then p.width else 0
