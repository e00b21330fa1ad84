-- ===== src/Voice/Control/Kept.antt =====
-- What a change of the voice's settings (src/backend/src/voice.rs) comes to, at once and after a
-- restart.
use carnine.Prelude.{
  ℕ, ◌≤◌, ◌<◌, ◌≡◌, inl, inr, refl, sym, subst, arith, Bool, true, false, Option, none, some, min,
  Option-cases,
}
use carnine.MediaPlayer.Queue.{or_else}
use carnine.Voice.Synthesizer.{Synthesizer}
use carnine.Voice.Worker.{Voice, Phase, loading, failed, idle}
use carnine.Voice.Caller.{is_loaded, available, set_enabled, send_fixed_texts}
use carnine.Voice.Control.{
  Settings, KeepsSettings, VoiceConfig, VoiceControl, VoiceState, Updated, volume_above,
  music_above, now_is, above, changed, state_of, update, new_control, save_of,
}

set_enabled-enabled : (S : Synthesizer) (b : Bool) (v : Voice S) → (set_enabled S b v).enabled ≡ b
unfolding set_enabled send_fixed_texts
set_enabled-enabled S b v = ground arith

above-none : (level : Option ℕ) (old : ℕ) → above level ≡ none → old ≤ 100 → or_else level old ≤ 100
above-none none old e h = h
above-none (some n) old e h = ground (arith, e)

above-some : (level : Option ℕ) (n : ℕ) → above level ≡ some n → (level ≡ some n) × (100 < n)
above-some none n e = absurd (ground (arith, e))
above-some (some m) n e = ground (arith, e)

module _ (S : Synthesizer) (D : Settings) where
  -- The levels are at most 100, and the media player has them.
  abbrev pub IsSettled : VoiceControl S D → Type 0
  IsSettled c =
      (c.volume_percent ≤ 100)
      × (c.music_under_percent ≤ 100)
      × (c.levels.volume ≡ c.volume_percent)
      × (c.levels.music_under ≡ c.music_under_percent)

  -- What clients see of a control.
  abbrev pub IsAvailable : Phase → Bool → Type 0
  IsAvailable loading b = b ≡ false
  IsAvailable failed b = b ≡ false
  IsAvailable idle b = b ≡ true
  IsAvailable (Phase.speaking a) b = b ≡ true

  abbrev pub Shows : VoiceControl S D → VoiceState → Type 0
  Shows d s =
      IsAvailable d.voice.phase s.available
      × (s.enabled ≡ d.voice.enabled)
      × (s.volume_percent ≡ d.volume_percent)
      × (s.music_under_percent ≡ d.music_under_percent)
      × (s.voice ≡ d.voice_name)

  is_loaded-IsAvailable : (phase : Phase) → IsAvailable phase (is_loaded phase)
  is_loaded-IsAvailable loading = refl
  is_loaded-IsAvailable failed = refl
  is_loaded-IsAvailable idle = refl
  is_loaded-IsAvailable (Phase.speaking a) = refl

  state_of-Shows : (d : VoiceControl S D) → Shows d (state_of S D d)
  unfolding state_of available
  state_of-Shows d = (is_loaded-IsAvailable d.voice.phase, refl, refl, refl, refl)

  -- The control `d` that an update of `c` comes to, by its answer.
  abbrev pub Answers :
      Option Bool → Option ℕ → Option ℕ → VoiceControl S D → VoiceControl S D → Updated → Type 0
  Answers enabled volume music c d (volume_above n) = (volume ≡ some n) × (100 < n) × (d ≡ c)
  Answers enabled volume music c d (music_above n) = (music ≡ some n) × (100 < n) × (d ≡ c)
  Answers enabled volume music c d (now_is s) =
      Shows d s
      × (d.voice_name ≡ c.voice_name)
      × (d.voice.enabled ≡ or_else enabled c.voice.enabled)
      × (d.volume_percent ≡ or_else volume c.volume_percent)
      × (d.music_under_percent ≡ or_else music c.music_under_percent)

  changed-values :
      (enabled : Option Bool) (volume music : Option ℕ) (c : VoiceControl S D)
      → let d = changed S D enabled volume music c in
        (d.voice.enabled ≡ or_else enabled c.voice.enabled)
        × (d.volume_percent ≡ or_else volume c.volume_percent)
        × (d.music_under_percent ≡ or_else music c.music_under_percent)
  unfolding changed
  changed-values none volume music c = ground arith
  changed-values (some b) volume music c = ground (arith, set_enabled-enabled S b c.voice)

  changed-name :
      (enabled : Option Bool) (volume music : Option ℕ) (c : VoiceControl S D)
      → (changed S D enabled volume music c).voice_name ≡ c.voice_name
  unfolding changed
  changed-name none volume music c = ground arith
  changed-name (some b) volume music c = ground arith

  changed-levels :
      (enabled : Option Bool) (volume music : Option ℕ) (c : VoiceControl S D)
      → IsSettled c
      → let d = changed S D enabled volume music c in
        (d.levels.volume ≡ d.volume_percent) × (d.levels.music_under ≡ d.music_under_percent)
  unfolding changed
  changed-levels enabled volume music c h = ground (arith, h.2, h.3)

  -- Every update is answered for what it does: a level above 100 is refused and named, and then
  -- nothing changes; else what is given is taken over, what is not given stays, and the answer shows
  -- the switch, the levels, the voice and whether it is loaded, as they are now. The levels stay at most 100, and the media player always has those of the state.
  pub update-IsSettled :
      (enabled : Option Bool) (volume music : Option ℕ) (c : VoiceControl S D)
      → IsSettled c
      → let (d, answer) = update S D enabled volume music c in
        Answers enabled volume music c d answer × IsSettled d
  unfolding update
  update-IsSettled enabled volume music c h = elim (Option-cases (above volume)) [
    | inr (n, e) ↦ rw (update, e) (((above-some volume n e).0, (above-some volume n e).1, refl), h)
    | inl e ↦ elim (Option-cases (above music)) [
      | inr (n, f) ↦
          rw (update, e, f) (((above-some music n f).0, (above-some music n f).1, refl), h)
      | inl f ↦
          let values = changed-values enabled volume music c in
          let levels = changed-levels enabled volume music c h in
          rw (update, e, f)
            (
              (
                state_of-Shows (changed S D enabled volume music c),
                changed-name enabled volume music c,
                values.0,
                values.1,
                values.2,
              ),
              (
                rw values.1 (above-none volume c.volume_percent e h.0),
                rw values.2 (above-none music c.music_under_percent f h.1),
                levels.0,
                levels.1,
              ),
            )
    ]
  ]

  changed-database :
      (enabled : Option Bool) (volume music : Option ℕ) (c : VoiceControl S D) (x : D.State)
      → c.database ≡ some x
      → let d = changed S D enabled volume music c in d.database ≡ some (save_of S D d x).0
  unfolding changed
  changed-database enabled volume music c x e = ground (arith, e)

  update-changed :
      (enabled : Option Bool) (volume music : Option ℕ) (c : VoiceControl S D)
      → above volume ≡ none
      → above music ≡ none
      → (update S D enabled volume music c).0 ≡ changed S D enabled volume music c
  unfolding update
  update-changed enabled volume music c e f = rw (update, e, f) refl

  -- A control that starts from the settings of another.
  restart :
      (d : VoiceControl S D) (x : D.State) (database : Option D.State) (next : Voice S)
      (config : VoiceConfig)
      → KeepsSettings D
      → IsSettled d
      → (save_of S D d x).1 ≡ true
      → let n = new_control S D next config (D.load (save_of S D d x).0) database in
        (n.voice.enabled ≡ d.voice.enabled)
        × (n.volume_percent ≡ d.volume_percent)
        × (n.music_under_percent ≡ d.music_under_percent)
        × (n.levels ≡ d.levels)
  unfolding new_control
  restart d x database next config keeps h works =
      let loaded = keeps.loads d.voice.enabled d.volume_percent d.music_under_percent x works in
      let volume : min d.volume_percent 100 ≡ d.volume_percent = omega (arith, h.0) in
      let music : min d.music_under_percent 100 ≡ d.music_under_percent = omega (arith, h.1) in
      rw (loaded, volume, music)
        (set_enabled-enabled S d.voice.enabled next, refl, refl, cc (h.2, h.3))

  -- The settings of an update that a database has saved are those of the next start, whatever the
  -- configuration says: the same switch, the same levels, and the media player gets them.
  pub update-new_control :
      (enabled : Option Bool) (volume music : Option ℕ) (c : VoiceControl S D) (x : D.State)
      (next : Voice S) (config : VoiceConfig)
      → KeepsSettings D
      → IsSettled c
      → above volume ≡ none
      → above music ≡ none
      → c.database ≡ some x
      → (save_of S D (update S D enabled volume music c).0 x).1 ≡ true
      → let d = (update S D enabled volume music c).0 in
        let n = new_control S D next config (D.load (save_of S D d x).0) d.database in
        (d.database ≡ some (save_of S D d x).0)
        × (n.voice.enabled ≡ d.voice.enabled)
        × (n.volume_percent ≡ d.volume_percent)
        × (n.music_under_percent ≡ d.music_under_percent)
        × (n.levels ≡ d.levels)
  update-new_control enabled volume music c x next config keeps h e f at works =
      let d = (update S D enabled volume music c).0 in
      let n =
        restart d x d.database next config keeps (update-IsSettled enabled volume music c h).1
          works in
      (
        subst (λ (d : VoiceControl S D). d.database ≡ some (save_of S D d x).0)
            (sym (update-changed enabled volume music c e f))
            (changed-database enabled volume music c x at),
        n.0,
        n.1,
        n.2,
        n.3,
      )
