-- ===== src/AudioVolume/Restart.antt =====
-- What the audio volume (src/backend/src/audio_volume.rs) keeps over a restart.
use carnine.Prelude.{
  ℕ, ◌≡◌, ◌≤◌, ◌<◌, ◌^◌, refl, ap, ◌∙◌, none, some, arith, true, false, List, [], ◌∷◌, ◌++◌, ◌==◌,
  append-nil, append_assoc, All,
}
use carnine.Prelude.Bytes.{
  is_whitespace, words_from, flush, codes, parse_unsigned, digits_below, is_empty,
}
use carnine.Prelude.Bytes.Decimal.{
  decimal, IsDigit, decimal-IsDigit, is_empty-decimal, all-digits, parse_below-decimal,
}
use carnine.AudioVolume.Programs.{Tools}
use carnine.AudioVolume.Text.{
  mapped, parse_state, format_state, initial_percent, amixer_args, mapped_marker, saved_of,
  percent_of,
}
use carnine.AudioVolume.{
  Volume, raw_of, amixer, set_volume, shutdown, start, new_volume, probed, apply, write_state,
  read_state, migrate, convert_raw_to_mapped, apply_amixer, read_amixer_percent, read_pactl_percent,
  apply_pactl,
}

words_from-digits :
    (w digits rest : List ℕ)
    → All IsDigit digits
    → words_from w (digits ++ rest) ≡ words_from (w ++ digits) rest
words_from-digits w [] rest h = rw (append-nil w) refl
words_from-digits w (c ∷ digits) rest h =
    let dark : is_whitespace c ≡ false = ground (arith, h.0) in
    rw dark (
      words_from-digits (w ++ c ∷ []) digits rest h.1
      ∙ ap (λ v. words_from v rest) (append_assoc w (c ∷ []) digits))

flush-word : (w : List ℕ) (rest : List (List ℕ)) → is_empty w ≡ false → flush w rest ≡ w ∷ rest
flush-word [] rest h = absurd (ground (arith, h))
flush-word (c ∷ w) rest h = refl

parse_unsigned-digits :
    (limit : ℕ) (s : List ℕ)
    → All IsDigit s
    → is_empty s ≡ false
    → parse_unsigned limit s ≡ digits_below limit s
parse_unsigned-digits limit [] h e = absurd (ground (arith, e))
parse_unsigned-digits limit (c ∷ s) h e =
    let no_plus : (c == b'+') ≡ false = ground (arith, h.0) in rw no_plus refl

parse_unsigned-decimal : (limit n : ℕ) → n < limit → parse_unsigned limit (decimal n) ≡ some n
parse_unsigned-decimal limit n h =
    parse_unsigned-digits limit (decimal n) (decimal-IsDigit n) (is_empty-decimal n)
    ∙ rw
        (
          is_empty-decimal n,
          all-digits (decimal n) (decimal-IsDigit n),
          parse_below-decimal limit n h,
        )
        refl

-- The state file reads back what was written, on the mapped scale.
pub parse_state-format_state :
    (percent : ℕ) → percent ≤ 100 → parse_state (format_state percent) ≡ some (mapped percent)
unfolding parse_state format_state
parse_state-format_state percent h =
    let split : words_from [] (format_state percent) ≡ decimal percent ∷ mapped_marker ∷ [] =
      words_from-digits [] (decimal percent) (b' ' ∷ (mapped_marker ++ (b'\n' ∷ [])))
        (decimal-IsDigit percent)
      ∙ flush-word (decimal percent) (mapped_marker ∷ []) (is_empty-decimal percent) in
    let number : percent_of (decimal percent) ≡ some percent =
      rw (parse_unsigned-decimal (2 ^ 8) percent (omega (arith, h))) (ground (arith, h)) in
    ap saved_of split ∙ rw (saved_of, number) refl

module _ (T : Tools) where
  -- The file has what was written last, and the programs leave it alone.
  pub record KeepsFile : Type 0 where
    pub reads_back :
        (text : List ℕ) (s : T.State)
        → (T.write_file text s).1 ≡ true
        → T.read_file (T.write_file text s).0 ≡ some text
    pub runs_apart :
        (program : List ℕ) (args : List (List ℕ)) (s : T.State)
        → T.read_file (T.run program args s).0 ≡ T.read_file s

  module _ (file : KeepsFile) where
    apply-read_file :
        (percent : ℕ) (v : Volume T) → T.read_file (apply T percent v).0.tools ≡ T.read_file v.tools
    unfolding apply apply_amixer apply_pactl
    apply-read_file percent v = ground (
      arith,
      file.runs_apart (codes "amixer") (amixer_args true (codes "set") (some percent)) v.tools,
      file.runs_apart (codes "pactl")
          (codes "set-sink-volume" ∷ codes "@DEFAULT_SINK@" ∷ (decimal percent ++ b'%' ∷ []) ∷ [])
          v.tools,
    )

    probe-read_file :
        (s : T.State)
        → T.read_file (read_pactl_percent T (read_amixer_percent T s).0).0 ≡ T.read_file s
    unfolding read_amixer_percent read_pactl_percent
    probe-read_file s =
        let (s', out) = T.run (codes "amixer") (amixer_args true (codes "get") none) s in
        ground (
          arith,
          file.runs_apart (codes "amixer") (amixer_args true (codes "get") none) s,
          file.runs_apart (codes "pactl") (codes "get-sink-volume" ∷ codes "@DEFAULT_SINK@" ∷ [])
              (read_amixer_percent T s).0,
        )

    new_volume_saved :
        (percent : ℕ) (s : T.State)
        → percent ≤ 100
        → T.read_file s ≡ some (format_state percent)
        → ((new_volume T s).percent ≡ percent) × ((new_volume T s).migrate_raw ≡ none)
    unfolding new_volume probed read_state initial_percent
    new_volume_saved percent s h saved =
        let state = (read_pactl_percent T (read_amixer_percent T s).0).0 in
        let r : read_state T state ≡ some (mapped percent) =
          rw (read_state, probe-read_file s ∙ saved) (parse_state-format_state percent h) in
        (ap initial_percent r, ap (raw_of T) r)

    -- Over a file that reads back what was written last and that the programs leave alone: a volume
    -- whose setting succeeded is there again after a restart, and needs no conversion.
    pub set_volume-new_volume :
        (percent : ℕ) (v : Volume T)
        → (set_volume T percent v).1 ≡ none
        → let w = new_volume T (set_volume T percent v).0.tools in
          (w.percent ≡ percent) × (w.migrate_raw ≡ none)
    unfolding set_volume write_state
    set_volume-new_volume percent v done =
        let low : percent ≤ 100 = ground (arith, done) in
        new_volume_saved percent (set_volume T percent v).0.tools low (
          ground
            (arith, done, low, file.reads_back (format_state percent) (apply T percent v).0.tools))

    -- Over a file that reads back what was written last and that the programs leave alone: a shutdown
    -- that can write the file keeps a volume of at most 100 over the restart, though it mutes the
    -- output, and the restart finds nothing to convert.
    pub shutdown-new_volume :
        (v : Volume T)
        → v.percent ≤ 100
        → (write_state T v.percent v.tools).1 ≡ true
        → let w = new_volume T (shutdown T v).tools in
          (w.percent ≡ v.percent) × (w.migrate_raw ≡ none)
    unfolding shutdown write_state
    shutdown-new_volume v low written = new_volume_saved v.percent (shutdown T v).tools low (
        apply-read_file 0 (record v { tools = (write_state T v.percent v.tools).0 })
        ∙ file.reads_back (format_state v.percent) v.tools written)

    -- Over a file that reads back what was written last and that the programs leave alone: a value of
    -- the old scale, at most 100, that `start` cannot convert with `amixer` is not tried again. Once a
    -- shutdown has written the file, the same number stands there as one of the new scale.
    pub start-shutdown_forgets :
        (v : Volume T) (percent : ℕ)
        → v.backend ≡ amixer
        → v.percent ≡ percent
        → v.migrate_raw ≡ some percent
        → percent ≤ 100
        → (convert_raw_to_mapped T percent v.tools).1 ≡ none
        → (write_state T percent (start T v).tools).1 ≡ true
        → let w = new_volume T (shutdown T (start T v)).tools in
          (w.percent ≡ percent) × (w.migrate_raw ≡ none)
    unfolding start migrate apply
    start-shutdown_forgets v percent back same old low fails written =
        let kept : (start T v).percent ≡ percent = ground (arith, back, same, old, fails) in
        let r = shutdown-new_volume (start T v) (rw kept low) (rw kept written) in (r.0 ∙ kept, r.1)
