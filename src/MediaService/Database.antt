-- ===== src/MediaService/Database.antt =====
-- What `MediaServiceImpl` (src/backend/src/main.rs) calls: the database of the library
-- (src/backend/src/database.rs), opened anew by each call, and the names that the generated code gives
-- to the repeat modes. Nothing is assumed of them.
use carnine.Prelude.{ℕ, Bool, Option, List}
use carnine.Prelude.Int.{ℤ}
use carnine.MediaPlayer.Queue.{RepeatMode}
use carnine.MediaPlayer.Playlist.{Entry}

-- `ResumeState` of src/backend/src/database.rs
pub record ResumeState : Type 0 where
  pub playlist_id : Option ℕ
  pub playlist_entry_id : Option ℕ
  pub position_ms : ℤ
  pub media_path : Option (List ℕ)
  pub resume_mode : List ℕ
  pub repeat_mode : List ℕ
  pub shuffle_enabled : Bool

pub record PlaylistEntry : Type 0 where
  pub id : ℕ
  pub playlist_id : ℕ
  pub media_id : ℕ
  pub position : ℕ

-- A call that fails is `none`, or `false`.
pub record Library : Type 1 where
  pub State : Type 0
  pub save_resume_state : ResumeState → State → State × Bool
  pub load_resume_state : State → Option (Option ResumeState)
  -- The entry and the position where a playlist stopped last.
  pub load_playlist_resume : ℕ → State → Option (Option (Option ℕ × ℤ))
  pub playlist_media_paths : ℕ → State → Option (List Entry)
  -- Whether there was one.
  pub delete_playlist : ℕ → State → State × Option Bool
  -- The playlist that the entry was in.
  pub remove_playlist_entry : ℕ → State → State × Option (Option ℕ)
  pub playlist_name : ℕ → State → Option (List ℕ)
  pub playlist_entries : ℕ → State → Option (List PlaylistEntry)
  pub playlist_cover_path : ℕ → State → Option (Option (List ℕ))
  pub as_str_name : RepeatMode → List ℕ
  pub from_str_name : List ℕ → Option RepeatMode
