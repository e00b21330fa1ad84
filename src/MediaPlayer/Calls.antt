-- ===== src/MediaPlayer/Calls.antt =====
-- Every call that the other parts of the backend make on the media player
-- (src/backend/src/media_player.rs), as an action. Each has its instant.
use carnine.Prelude.{ℕ, Bool, Option, List, [], ◌∷◌}
use carnine.Prelude.Int.{ℤ}
use carnine.MediaPlayer.Engine.{Engine}
use carnine.MediaPlayer.Queue.{Shuffler, RepeatMode}
use carnine.MediaPlayer.Player.{
  Player, Priority, PlayerEventType, AnnouncementLevels, event_of, report_output_availability,
}
use carnine.MediaPlayer.Announce.{play_announcement}
use carnine.MediaPlayer.Playlist.{
  Entry, play_playlist, restore_path, forget_playlist, remove_playlist_entry,
}
use carnine.MediaPlayer.Commands.{
  execute, set_repeat, set_shuffle, watch, set_announcement_levels, shutdown, shutdown_output,
}

module _ (E : Engine) (R : Shuffler) where
  pub data Action : Type 0 where
    -- command, parameters
    executes : List ℕ → List ℕ → ℕ → Action
    -- id, entries, entry and position to resume at, mode
    loads : ℕ → List Entry → Option ℕ → ℤ → List ℕ → ℕ → Action
    -- path, position, mode
    restores : List ℕ → ℤ → List ℕ → ℕ → Action
    forgets removes : ℕ → ℕ → Action
    repeats : RepeatMode → Action
    shuffles : Bool → Action
    announces : List ℕ → Priority → ℕ → Action
    sets_levels : AnnouncementLevels E R → Action
    looks : PlayerEventType → ℕ → Action
    watches shuts_down : ℕ → Action
    reports shuts_output : Action

  unfoldable pub act : Player E R → Action → Player E R
  act p (executes command parameters now) = (execute E R command parameters now p).0
  act p (loads id entries entry position mode now) =
      (play_playlist E R id entries entry position mode now p).0
  act p (restores path position mode now) = (restore_path E R path position mode now p).0
  act p (forgets id now) = forget_playlist E R id now p
  act p (removes entry_id now) = (remove_playlist_entry E R entry_id now p).0
  act p (repeats mode) = set_repeat E R mode p
  act p (shuffles enabled) = set_shuffle E R enabled p
  act p (announces path priority now) = (play_announcement E R path priority now p).0
  act p (sets_levels levels) = set_announcement_levels E R levels p
  act p (looks event now) = (event_of E R event p now).1
  act p (watches now) = watch E R now p
  act p (shuts_down now) = (shutdown E R now p).0
  act p reports = report_output_availability E R p
  act p shuts_output = (shutdown_output E R p).0

  unfoldable pub act_all : Player E R → List Action → Player E R
  act_all p [] = p
  act_all p (a ∷ actions) = act_all (act p a) actions
