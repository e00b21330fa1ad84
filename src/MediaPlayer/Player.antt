-- ===== src/MediaPlayer/Player.antt =====
-- The state of `MediaPlayer` (src/backend/src/media_player.rs) and what every operation uses: the
-- position clock, the events, and starting and stopping a playback. Each operation is one step; an
-- instant is a number of milliseconds, and an operation reads the clock once.
use carnine.Prelude.{
  ℕ, suc, ◌+◌, ◌-◌, ◌^◌, Bool, true, false, not, Option, none, some, List, [], ◌∷◌, if◌then◌else◌,
  min,
}
use carnine.Prelude.Bytes.{same, is_empty}
use carnine.MediaPlayer.Engine.{Engine}
use carnine.MediaPlayer.Queue.{Shuffler, Queue, RepeatMode, repeat_off, or_else}

pub data PlaybackState : Type 0 where
  stopped playing paused : PlaybackState

abbrev pub is_playing : PlaybackState → Bool
is_playing playing = true
is_playing _ = false

pub data Priority : Type 0 where
  info maneuver : Priority

-- `current > priority`
abbrev pub outranks : Priority → Priority → Bool
outranks maneuver info = true
outranks _ _ = false

-- The events of src/proto/carnine.proto.
pub data PlayerEventType : Type 0 where
  player_event_unspecified player_snapshot player_position_changed : PlayerEventType
  player_playback_started player_resumed player_paused player_stopped : PlayerEventType
  player_track_changed player_error player_queue_finished : PlayerEventType

pub data AudioEventType : Type 0 where
  audio_event_unspecified audio_ready audio_source_started audio_source_pause_requested :
      AudioEventType
  audio_source_resume_requested audio_source_stop_requested audio_decoder_stopped : AudioEventType
  audio_source_removed audio_device_changed audio_error audio_output_unavailable : AudioEventType
  audio_output_available : AudioEventType

-- Why a call fails; the messages are left out.
pub data PlayerError : Type 0 where
  engine_failed no_entries unsupported_mode missing_file no_path no_media no_seek : PlayerError
  no_adjacent_track out_of_range no_playback invalid_number unknown_command : PlayerError

-- The state that an event carries.
pub record PlayerState : Type 0 where
  pub status : PlaybackState
  pub media_path : List ℕ
  pub position_ms : ℕ
  pub duration_ms : ℕ
  pub playlist_id : ℕ
  pub repeat_mode : RepeatMode
  pub shuffle_enabled : Bool

pub record PlayerEvent : Type 0 where
  pub event : PlayerEventType
  pub state : PlayerState

-- `i64::saturating_add` of numbers that are not negative.
abbrev pub saturate : ℕ → ℕ
saturate n = min n (2 ^ 63 - 1)

module _ (E : Engine) (R : Shuffler) where
  open E use {State, Playback, Gain, start, start_at, stop, output_available, duration}

  pub record Announcement : Type 0 where
    pub playback : Playback
    pub priority : Priority

  pub record AnnouncementLevels : Type 0 where
    pub volume : Gain
    pub music_under : Gain

  pub record Player : Type 0 where
    pub engine : State
    pub playback : Option Playback
    pub state : PlaybackState
    pub queue : Queue R
    pub playlist_id : Option ℕ
    pub media_path : Option (List ℕ)
    pub position_ms : ℕ
    pub started_at : Option ℕ
    pub events : List PlayerEvent
    pub audio_events : List AudioEventType
    pub output_reported : Option Bool
    pub duration_cache : Option (List ℕ × ℕ)
    pub announcement : Option Announcement
    pub announcement_levels : AnnouncementLevels
    pub playback_starts : ℕ
    pub music_held : Option ℕ

  -- `with_state`
  unfoldable pub new_player : State → R.Rng → Player
  new_player engine rng = record {
    engine = engine;
    playback = none;
    state = stopped;
    queue = record {
      tracks = [];
      entry_ids = [];
      index = none;
      repeat_mode = repeat_off;
      shuffle_enabled = false;
      shuffle_order = [];
      shuffle_position = 0;
      rng = rng;
    };
    playlist_id = none;
    media_path = none;
    position_ms = 0;
    started_at = none;
    events = [];
    audio_events = [];
    output_reported = none;
    duration_cache = none;
    announcement = none;
    announcement_levels = record { volume = E.full_gain; music_under = E.default_music_under };
    playback_starts = 0;
    music_held = none;
  }

  -- A call that fails leaves what it did before.
  abbrev pub Outcome : Type 0
  Outcome = Player × Option PlayerError

  abbrev pub and_then : Outcome → (Player → Outcome) → Outcome
  and_then (p, none) next = next p
  and_then (p, some e) next = (p, some e)

  abbrev pub path_of : Option (List ℕ) → List ℕ
  path_of path = or_else path []

  abbrev pub elapsed : Option ℕ → ℕ → ℕ
  elapsed none now = 0
  elapsed (some started) now = now - started

  -- `position_ms`
  unfoldable pub position : Player → ℕ → ℕ
  position p now = saturate (p.position_ms + elapsed p.started_at now)

  abbrev cached : Option (List ℕ × ℕ) → List ℕ → Option ℕ
  cached none path = none
  cached (some (cached_path, d)) path = if same cached_path path then some d else none

  -- `duration_ms`, and the cache after it.
  unfoldable pub duration_ms : Player → ℕ
  duration_ms p =
      let path = path_of p.media_path in
      if is_empty path
      then 0
      else or_else (cached p.duration_cache path) (or_else (duration path p.engine) 0)

  unfoldable pub cache_after : Player → Option (List ℕ × ℕ)
  cache_after p =
      let path = path_of p.media_path in
      if is_empty path then p.duration_cache else elim (cached p.duration_cache path) [
        | none ↦ some (path, or_else (duration path p.engine) 0)
        | some d ↦ p.duration_cache
      ]

  unfoldable pub player_state : Player → ℕ → PlayerState
  unfolding position duration_ms
  player_state p now = record {
    status = p.state;
    media_path = path_of p.media_path;
    position_ms = position p now;
    duration_ms = duration_ms p;
    playlist_id = or_else p.playlist_id 0;
    repeat_mode = p.queue.repeat_mode;
    shuffle_enabled = p.queue.shuffle_enabled;
  }

  -- `snapshot_event` and `position_event`: the event, and the player after the look.
  unfoldable pub event_of : PlayerEventType → Player → ℕ → PlayerEvent × Player
  event_of event p now = (
    record { event = event; state = player_state p now },
    record p { duration_cache = cache_after p },
  )

  unfoldable pub publish : Player → ℕ → PlayerEventType → Player
  publish p now event = record p {
    events = record { event = event; state = player_state p now } ∷ p.events;
    duration_cache = cache_after p;
  }

  unfoldable pub publish_audio : Player → AudioEventType → Player
  publish_audio p event = record p { audio_events = event ∷ p.audio_events }

  -- Whether a report of `available` after `previous` is news.
  abbrev pub is_news : Option Bool → Bool → Bool
  is_news none available = not available
  is_news (some true) available = not available
  is_news (some false) available = available

  unfoldable pub report_output_availability : Player → Player
  unfolding publish_audio
  report_output_availability p =
      let available = output_available p.engine in
      let q = record p { output_reported = some available } in
      if is_news p.output_reported available
      then publish_audio q (if available then audio_output_available else audio_output_unavailable)
      else q

  abbrev began : Player → State × Option Playback → Player × Option Playback
  began p (s, h) = (
    report_output_availability (record p { engine = s; playback_starts = suc p.playback_starts }),
    h,
  )

  -- `start_engine`
  unfoldable pub start_engine : Player → List ℕ → Option ℕ → Player × Option Playback
  start_engine p path none = began p (start path p.engine)
  start_engine p path (some position) = began p (start_at path position p.engine)

  -- The end of the playback that is there, if one is.
  unfoldable pub drop_playback : Player → Outcome
  drop_playback p = elim p.playback [
    | none ↦ (p, none)
    | some h ↦
        let (s, done) = stop h p.engine in
        (record p { playback = none; engine = s }, if done then none else some engine_failed)
  ]

  abbrev at_start : Player → Player
  at_start p = record p { position_ms = 0; started_at = none }

  unfoldable pub stop_active_playback : Player → Outcome
  unfolding drop_playback
  stop_active_playback p = and_then (drop_playback p) λ q. (at_start q, none)
