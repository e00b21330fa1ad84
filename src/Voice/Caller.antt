-- ===== src/Voice/Caller.antt =====
-- The callers' side of src/backend/src/voice.rs: `Voice`.
use carnine.Prelude.{
  ℕ, suc, Bool, true, false, ◌||◌, ◌&&◌, not, none, some, List, [], ◌∷◌, ◌++◌, if◌then◌else◌,
}
use carnine.Prelude.Bytes.{is_empty, trim}
use carnine.MediaPlayer.Player.{Priority}
use carnine.Voice.Synthesizer.{Synthesizer}
use carnine.Voice.Cache.{find_file}
use carnine.Voice.Worker.{
  Voice, Announcement, Command, to_prepare, to_fix, to_speak, was_spoken, Phase, loading, idle,
  sink, turn, load,
}

abbrev pub is_loaded : Phase → Bool
is_loaded idle = true
is_loaded (Phase.speaking a) = true
is_loaded _ = false

-- What the callers and the voice thread do, in any order.
pub data Action : Type 0 where
  announces : List ℕ → Priority → Action
  prepares : List (List ℕ) → Action
  sets_enabled : Bool → Action
  loads : Bool → ℕ → Action
  turns : ℕ → Action

module _ (S : Synthesizer) where
  abbrev pub send : Command → Voice S → Voice S
  send command v = record v { commands = v.commands ++ command ∷ [] }

  unfoldable pub send_fixed_texts : Voice S → Voice S
  send_fixed_texts v = if is_empty v.fixed_texts then v else send (to_fix v.fixed_texts) v

  unfoldable pub start : S.State → Bool → List (List ℕ) → Voice S
  unfolding send_fixed_texts
  start state enabled fixed_texts =
      let v : Voice S = record {
        store = record {
          state = state;
          cache = record { files = []; order = []; pinned = fixed_texts };
          next_file = 0;
        };
        phase = loading;
        enabled = enabled;
        announced = 0;
        fixed_texts = fixed_texts;
        played_direct = none;
        commands = [];
        pending = [];
        fixed = [];
        route_prepared = false;
        fixed_since = 0;
        played = [];
      } in
      if enabled then send_fixed_texts v else v

  unfoldable pub available : Voice S → Bool
  available v = is_loaded v.phase

  unfoldable pub set_enabled : Bool → Voice S → Voice S
  unfolding send_fixed_texts
  set_enabled enabled v =
      let w = record v { enabled = enabled } in
      if enabled && not v.enabled then send_fixed_texts w else w

  unfoldable pub prepare : List (List ℕ) → Voice S → Voice S
  prepare texts v = if v.enabled then send (to_prepare texts) v else v

  -- An announcement with its number: played at once from the cache, or left to the voice thread.
  unfoldable pub ask : Announcement → Voice S → Voice S
  ask a v = elim (find_file a.text v.store.cache.files) [
    | none ↦ send (to_speak a) v
    | some file ↦
        send (was_spoken a.text)
          (sink S a (some file) (record v { played_direct = some (a.number, a.priority) }))
  ]

  unfoldable pub announce : List ℕ → Priority → Voice S → Voice S
  unfolding ask
  announce text priority v =
      if not v.enabled || is_empty (trim text)
      then v
      else (let number = suc v.announced in
          ask (record { text = text; priority = priority; number = number })
            (record v { announced = number }))

  unfoldable pub act : Voice S → Action → Voice S
  act v (announces text priority) = announce text priority v
  act v (prepares texts) = prepare texts v
  act v (sets_enabled enabled) = set_enabled enabled v
  act v (loads works now) = load S works now v
  act v (turns now) = turn S now v

  unfoldable pub act_all : Voice S → List Action → Voice S
  act_all v [] = v
  act_all v (a ∷ actions) = act_all (act v a) actions
