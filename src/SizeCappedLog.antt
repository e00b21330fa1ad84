-- ===== src/SizeCappedLog.antt =====
-- `SizeCappedFile` (src/backend/src/size_capped_log.rs): a log file that is moved to `<name>.1` once
-- it grows too large. The file system is two files, and a call of it may fail each time.
mod Bounds
mod Stuck
mod Tests
use carnine.Prelude.{
  ℕ, ◌+◌, Bool, true, false, ◌&&◌, Option, none, some, List, [], ◌∷◌, ◌++◌, ltb, if◌then◌else◌,
  length, take,
}

-- The files at the log's path and at `<name>.1`.
pub record Disk : Type 0 where
  pub log : Option (List ℕ)
  pub rotated : Option (List ℕ)

-- Which of them the open file is: after a rename it is the one at `<name>.1`.
pub data Place : Type 0 where
  at_log at_rotated : Place

pub record SizeCappedFile : Type 0 where
  pub max_bytes : ℕ
  pub place : Place
  pub written : ℕ

pub record World : Type 0 where
  pub file : SizeCappedFile
  pub disk : Disk

-- How the calls of one write end: `flush`, `rename`, the opening, and how many bytes `write` takes.
pub record Calls : Type 0 where
  pub flushes : Bool
  pub renames : Bool
  pub opens : Bool
  pub takes : Option ℕ

abbrev pub content : Option (List ℕ) → List ℕ
content none = []
content (some s) = s

-- `open_append`: the file is created where there is none.
unfoldable pub open_append : Disk → Disk
open_append d = record d { log = some (content d.log) }

-- `SizeCappedFile::open`, on a disk that lets it.
unfoldable pub open_log : Disk → ℕ → World
unfolding open_append
open_log d max_bytes = record {
  file = record { max_bytes = max_bytes; place = at_log; written = length (content d.log) };
  disk = open_append d;
}

-- `fs::rename`: nothing to move is an error.
unfoldable pub rename : Disk → Bool → Option Disk
rename d false = none
rename d true = elim d.log [ none ↦ none | some s ↦ some (record { log = none; rotated = some s }) ]

-- The end of `rotate`. The old file stays open until the new one is.
unfoldable pub reopen : World → Bool → Disk → World × Bool
unfolding open_append
reopen w true d =
    (record { file = record (w.file) { place = at_log; written = 0 }; disk = open_append d }, true)
reopen w false d = (record { file = record (w.file) { place = at_rotated }; disk = d }, false)

-- `rotate`
unfoldable pub rotate : World → Calls → World × Bool
unfolding rename reopen
rotate w c =
    if c.flushes
    then elim (rename w.disk c.renames) [ none ↦ (w, false) | some d ↦ reopen w c.opens d ]
    else (w, false)

unfoldable pub put : Place → List ℕ → Disk → Disk
put at_log s d = record d { log = some (content d.log ++ s) }
put at_rotated s d = record d { rotated = some (content d.rotated ++ s) }

-- `file.write`, and the count of it.
unfoldable pub append : World → Option ℕ → List ℕ → World × Option ℕ
unfolding put
append w none buf = (w, none)
append w (some n) buf =
    let s = take n buf in
    (
      record {
        file = record (w.file) { written = w.file.written + length s };
        disk = put w.file.place s w.disk;
      },
      some (length s),
    )

abbrev pub is_full : World → List ℕ → Bool
is_full w buf = ltb 0 w.file.written && ltb w.file.max_bytes (w.file.written + length buf)

-- `write`: the bytes that were taken, or an error.
unfoldable pub write : World → Calls → List ℕ → World × Option ℕ
unfolding rotate append
write w c buf =
    if is_full w buf
    then (let (q, done) = rotate w c in if done then append q c.takes buf else (q, none))
    else append w c.takes buf

unfoldable pub write_all : World → List (Calls × List ℕ) → World
write_all w [] = w
write_all w ((c, buf) ∷ more) = write_all (write w c buf).0 more
