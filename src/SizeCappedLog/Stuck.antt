-- ===== src/SizeCappedLog/Stuck.antt =====
-- What a rotation leaves that cannot open the new file (src/backend/src/size_capped_log.rs).
use carnine.Prelude.{
  ℕ, ◌≤◌, ◌≡◌, refl, Bool, true, false, none, some, List, [], ◌∷◌, ap, ◌∙◌, length, arith, All,
  Bool-cases, inl, inr,
}
use carnine.SizeCappedLog.{
  Disk, at_rotated, World, Calls, rename, reopen, rotate, is_full, write, write_all,
}

rename_gone : (d : Disk) (renames : Bool) → d.log ≡ none → rename d renames ≡ none
unfolding rename
rename_gone d true e = rw e refl
rename_gone d false e = refl

rotate_gone : (w : World) (c : Calls) → w.disk.log ≡ none → rotate w c ≡ (w, false)
unfolding rotate
rotate_gone w c e = elim (Bool-cases c.flushes) [
  | inr fails ↦ rw fails refl
  | inl works ↦ rw (works, rename_gone w.disk c.renames e) refl
]

write_gone :
    (w : World) (c : Calls) (buf : List ℕ)
    → w.disk.log ≡ none
    → is_full w buf ≡ true
    → write w c buf ≡ (w, none)
unfolding write
write_gone w c buf e full = rw (full, rotate_gone w c e) refl

write_all_gone :
    (w : World) (writes : List (Calls × List ℕ))
    → w.disk.log ≡ none
    → All (λ x. is_full w x.1 ≡ true) writes
    → write_all w writes ≡ w
unfolding write_all
write_all_gone w [] e full = refl
write_all_gone w ((c, buf) ∷ more) e full =
    ap (λ q. write_all q.0 more) (write_gone w c buf e full.0) ∙ write_all_gone w more e full.1

-- The log after a rotation that moved the file and could not open a new one.
abbrev pub stranded : World → List ℕ → World
stranded w s = record {
  file = record (w.file) { place = at_rotated };
  disk = record { log = none; rotated = some s };
}

write-stranded :
    (w : World) (c : Calls) (buf s : List ℕ)
    → is_full w buf ≡ true
    → w.disk.log ≡ some s
    → c.flushes ≡ true
    → c.renames ≡ true
    → c.opens ≡ false
    → write w c buf ≡ (stranded w s, none)
unfolding write rotate rename reopen
write-stranded w c buf s full at f r o = rw (full, f, r, at, o) refl

longer_full :
    (w : World) (buf : List ℕ) (writes : List (Calls × List ℕ))
    → is_full w buf ≡ true
    → All (λ x. length buf ≤ length x.1) writes
    → All (λ x. is_full w x.1 ≡ true) writes
longer_full w buf [] full longer = tt
longer_full w buf ((c, more_bytes) ∷ more) full longer =
    (ground (arith, full, longer.0), longer_full w buf more full longer.1)

-- A write that has to rotate, moves the file and cannot open a new one is an error; from then on no
-- write of at least that length succeeds or changes anything, even if every call would work again.
pub write_all-stranded :
    (w : World) (c : Calls) (buf s : List ℕ) (writes : List (Calls × List ℕ))
    → is_full w buf ≡ true
    → w.disk.log ≡ some s
    → c.flushes ≡ true
    → c.renames ≡ true
    → c.opens ≡ false
    → All (λ x. length buf ≤ length x.1) writes
    → (write w c buf ≡ (stranded w s, none))
      × (write_all (stranded w s) writes ≡ stranded w s)
      × All (λ x. (write (stranded w s) x.0 x.1).1 ≡ none) writes
write_all-stranded w c buf s writes full at f r o longer =
    let all_full = longer_full (stranded w s) buf writes full longer in
    (
      write-stranded w c buf s full at f r o,
      write_all_gone (stranded w s) writes refl all_full,
      each_fails writes all_full,
    )
  where
    each_fails :
        (writes : List (Calls × List ℕ))
        → All (λ x. is_full (stranded w s) x.1 ≡ true) writes
        → All (λ x. (write (stranded w s) x.0 x.1).1 ≡ none) writes
    each_fails [] full = tt
    each_fails ((c, b) ∷ more) full =
        (ap (λ q. q.1) (write_gone (stranded w s) c b refl full.0), each_fails more full.1)
