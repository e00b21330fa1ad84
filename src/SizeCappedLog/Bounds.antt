-- ===== src/SizeCappedLog/Bounds.antt =====
-- How large the files of a `SizeCappedFile` grow (src/backend/src/size_capped_log.rs).
use carnine.Prelude.{
  ℕ, ◌+◌, ◌≤◌, ◌≡◌, refl, Bool, true, false, Option, none, some, List, [], ◌∷◌, length, take,
  length-append, length-take_le, arith, All, Bool-cases, Option-cases, inl, inr,
}
use carnine.SizeCappedLog.{
  Disk, Place, at_log, at_rotated, World, Calls, content, open_log, open_append, rename, reopen,
  rotate, put, append, is_full, write, write_all,
}

abbrev pub size : Option (List ℕ) → ℕ
size s = length (content s)

-- The open file holds what was counted; where the log was moved and no new one could be opened,
-- there is none at its path.
abbrev pub Holds : ℕ → Place → ℕ → Disk → Type 0
Holds m at_log n d = (size d.log ≡ n) × (size d.rotated ≤ m)
Holds m at_rotated n d = (size d.rotated ≡ n) × (d.log ≡ none)

abbrev pub IsValid : ℕ → World → Type 0
IsValid m w =
    (w.file.max_bytes ≡ m) × (w.file.written ≤ m) × Holds m w.file.place w.file.written w.disk

reopen-IsValid :
    (m : ℕ) (w : World) (opens : Bool) (d : Disk)
    → w.file.max_bytes ≡ m
    → w.file.written ≤ m
    → size d.rotated ≡ w.file.written
    → d.log ≡ none
    → IsValid m (reopen w opens d).0
unfolding reopen open_append
reopen-IsValid m w true d e le r l = (e, omega arith, (rw l refl, omega arith))
reopen-IsValid m w false d e le r l = (e, le, (r, l))

moved :
    (m : ℕ) (p : Place) (n : ℕ) (d d' : Disk) (renames : Bool)
    → Holds m p n d
    → rename d renames ≡ some d'
    → (size d'.rotated ≡ n) × (d'.log ≡ none)
unfolding rename
moved m at_log n d d' renames h e = ground arith
moved m at_rotated n d d' renames h e = ground arith

rotate-IsValid : (m : ℕ) (w : World) (c : Calls) → IsValid m w → IsValid m (rotate w c).0
unfolding rotate
rotate-IsValid m w c v = elim (Bool-cases c.flushes) [
  | inr fails ↦ rw fails v
  | inl works ↦ elim (Option-cases (rename w.disk c.renames)) [
    | inl e ↦ rw (works, e) v
    | inr (d, e) ↦
        let h = moved m w.file.place w.file.written w.disk d c.renames v.2 e in
        rw (works, e) (reopen-IsValid m w c.opens d v.0 v.1 h.0 h.1)
  ]
]

put-Holds :
    (m : ℕ) (p : Place) (n : ℕ) (s : List ℕ) (d : Disk)
    → Holds m p n d
    → Holds m p (n + length s) (put p s d)
unfolding put
put-Holds m at_log n s d h = (omega (arith, length-append (content d.log) s, h.0), h.1)
put-Holds m at_rotated n s d h = (omega (arith, length-append (content d.rotated) s, h.0), h.1)

append-IsValid :
    (m : ℕ) (w : World) (takes : Option ℕ) (buf : List ℕ)
    → IsValid m w
    → w.file.written + length buf ≤ m
    → IsValid m (append w takes buf).0
unfolding append
append-IsValid m w none buf v fits = v
append-IsValid m w (some n) buf v fits = (
  v.0,
  omega (arith, length-take_le n buf, fits),
  put-Holds m w.file.place w.file.written (take n buf) w.disk v.2,
)

rotate_written : (w : World) (c : Calls) → (rotate w c).1 ≡ true → (rotate w c).0.file.written ≡ 0
unfolding rotate rename reopen
rotate_written w c h = ground arith

write-IsValid :
    (m : ℕ) (w : World) (c : Calls) (buf : List ℕ)
    → IsValid m w
    → length buf ≤ m
    → IsValid m (write w c buf).0
unfolding write
write-IsValid m w c buf v fits = elim (Bool-cases (is_full w buf)) [
  | inr room ↦ rw room (append-IsValid m w c.takes buf v (ground (arith, room, v.0, v.1)))
  | inl full ↦ elim (Bool-cases (rotate w c).1) [
    | inr fails ↦ rw (full, fails) (rotate-IsValid m w c v)
    | inl works ↦
        rw (full, works)
          (append-IsValid m (rotate w c).0 c.takes buf (rotate-IsValid m w c v)
            (omega (arith, rotate_written w c works, fits)))
  ]
]

write_all-IsValid :
    (m : ℕ) (w : World) (writes : List (Calls × List ℕ))
    → IsValid m w
    → All (λ x. length x.1 ≤ m) writes
    → IsValid m (write_all w writes)
unfolding write_all
write_all-IsValid m w [] v fit = v
write_all-IsValid m w ((c, buf) ∷ more) v fit =
    write_all-IsValid m (write w c buf).0 more (write-IsValid m w c buf v fit.0) fit.1

Holds-sizes :
    (m : ℕ) (p : Place) (n : ℕ) (d : Disk)
    → n ≤ m
    → Holds m p n d
    → (size d.log ≤ m) × (size d.rotated ≤ m)
Holds-sizes m at_log n d le h = (omega (arith, h.0), h.1)
Holds-sizes m at_rotated n d le h = (rw h.1 (omega arith), omega (arith, h.0))

-- With files within the limit at the start, and no write that is larger by itself, neither file ever
-- grows beyond the limit, whichever calls of the file system fail and however few bytes they take.
pub write_all_sizes :
    (m : ℕ) (d : Disk) (writes : List (Calls × List ℕ))
    → size d.log ≤ m
    → size d.rotated ≤ m
    → All (λ x. length x.1 ≤ m) writes
    → let q = write_all (open_log d m) writes in (size q.disk.log ≤ m) × (size q.disk.rotated ≤ m)
unfolding open_log open_append
write_all_sizes m d writes l r fit =
    let q = write_all (open_log d m) writes in
    let v = write_all-IsValid m (open_log d m) writes (refl, l, (refl, r)) fit in
    Holds-sizes m q.file.place q.file.written q.disk v.1 v.2
