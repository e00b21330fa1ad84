-- ===== src/Voice/Late.antt =====
-- An announcement that comes out too late (src/backend/src/voice.rs).
use carnine.Prelude.{ℕ, suc, ◌≡◌, ◌≤◌, true, false, some, List, ◌∷◌, arith}
use carnine.Prelude.Bytes.{is_empty, trim}
use carnine.MediaPlayer.Player.{info, maneuver}
use carnine.Voice.Synthesizer.{Synthesizer}
use carnine.Voice.Cache.{find_file, speech_file}
use carnine.Voice.Worker.{Voice, Announcement, Phase, overtaken, finish, turn}
use carnine.Voice.Caller.{announce, ask}

module _ (S : Synthesizer) where
  -- A turn instruction is synthesized, a newer turn instruction is played from the cache meanwhile,
  -- and after that an information. The voice remembers the information only, which is less urgent:
  -- it plays the old instruction after the newer one.
  pub turn-overtaken :
      (v : Voice S) (a : Announcement) (next hint : List ℕ) (file next_file hint_file now : ℕ)
      → v.phase ≡ Phase.speaking a
      → a.priority ≡ maneuver
      → a.number ≤ v.announced
      → v.enabled ≡ true
      → is_empty (trim next) ≡ false
      → is_empty (trim hint) ≡ false
      → find_file next v.store.cache.files ≡ some next_file
      → find_file hint v.store.cache.files ≡ some hint_file
      → (speech_file S a.text v.store).1 ≡ some file
      → let w = turn S now (announce S hint info (announce S next maneuver v)) in
        let newer : Announcement = record {
          text = next;
          priority = maneuver;
          number = suc v.announced;
        } in
        let information : Announcement = record {
          text = hint;
          priority = info;
          number = suc (suc v.announced);
        } in
        w.played
        ≡ record { file = file; announcement = a }
          ∷ record { file = hint_file; announcement = information }
          ∷ record { file = next_file; announcement = newer }
          ∷ v.played
  unfolding announce ask turn finish overtaken
  turn-overtaken v a next hint file next_file hint_file now at p old on black black' there there'
        works =
      ground (arith, at, p, old, on, black, black', there, there', works)
