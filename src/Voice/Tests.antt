-- ===== src/Voice/Tests.antt =====
-- The voice (src/backend/src/voice.rs) over a synthesizer that says the text itself.
use carnine.Prelude.{
  ℕ, suc, ◌≡◌, refl, ap, arith, Bool, true, false, none, some, List, [], ◌∷◌, map, ◌==◌,
  if◌then◌else◌,
}
use carnine.Prelude.Bytes.{codes, is_empty}
use carnine.MediaPlayer.Player.{info, maneuver}
use carnine.Voice.Synthesizer.{Synthesizer}
use carnine.Voice.Cache.{speech_file, keep, evict}
use carnine.Voice.Worker.{
  Voice, Played, Phase, begin, drain, drop_through, finish, load, overtaken, prepare_next,
  take_command, turn, fixed_due,
}
use carnine.Voice.Caller.{
  Action, announces, prepares, loads, turns, act, act_all, start, announce, ask, prepare,
  send_fixed_texts,
}
use carnine.Voice.Order.Row.{Falling}
use carnine.Voice.Order.{act_all-Falling}
use carnine.Voice.Files.There.{Disk}
use carnine.Voice.Files.Kept.{IsKept}
use carnine.Voice.Files.{act_all-IsKept}
use carnine.Voice.Late.{turn-overtaken}

-- The state tells which files are there.
abbrev bench : Synthesizer
bench = record {
  State = ℕ → Bool;
  Speech = List ℕ;
  synthesize = λ text s. (s, if is_empty text then none else some text);
  write_wav = λ n speech s. ((λ m. if m == n then true else s m), true);
  remove_file = λ n s m. if m == n then false else s m;
}

disk : Disk bench
disk = record {
  is_there = λ n s. s n;
  synthesis_apart = λ text n s. refl;
  writes = λ n speech s e. ground arith;
  writes_apart = λ m n speech s e. ground (arith, e);
  removes_apart = λ m n s e. ground (arith, e);
}

abbrev no_files : ℕ → Bool
no_files n = false

-- The first text is prepared, the second synthesized when it is asked for, and the first is played
-- again before that is done.
abbrev actions : List Action
actions =
    loads true 0
    ∷ prepares (codes "A" ∷ [])
    ∷ turns 1
    ∷ turns 1
    ∷ announces (codes "A") maneuver
    ∷ announces (codes "B") maneuver
    ∷ turns 2
    ∷ turns 2
    ∷ turns 3
    ∷ []

abbrev after : Voice bench
after = act_all bench (start bench no_files true []) actions

numbers : map (λ (x : Played). x.announcement.number) after.played ≡ 2 ∷ 1 ∷ []
unfolding act_all act start load prepare announce ask turn take_command drain begin finish overtaken
    drop_through prepare_next fixed_due speech_file keep evict send_fixed_texts
numbers = refl

act_all-Falling_example : Falling (suc after.announced) after.played
act_all-Falling_example =
    act_all-Falling maneuver bench no_files true [] actions
      (tt, (tt, (tt, (tt, (refl, (refl, (tt, (tt, (tt, tt)))))))))

act_all-IsKept_example : IsKept bench disk after.store
act_all-IsKept_example = act_all-IsKept bench disk no_files true [] actions

-- A turn instruction that is being synthesized, with two texts in the cache.
abbrev late : Voice bench
late = record (act_all bench (start bench no_files true []) []) {
  store = record {
    state = no_files;
    cache = record {
      files = (codes "next", 0) ∷ (codes "hint", 1) ∷ [];
      order = codes "next" ∷ codes "hint" ∷ [];
      pinned = [];
    };
    next_file = 2;
  };
  enabled = true;
  announced = 1;
  phase = Phase.speaking (record { text = codes "old"; priority = maneuver; number = 1 });
}

speech : (speech_file bench (codes "old") late.store).1 ≡ some 2
unfolding speech_file keep evict act_all start send_fixed_texts
speech = refl

turn-overtaken_example :
    map
      (λ (x : Played). x.announcement.number)
      (turn bench 5
        (announce bench (codes "hint") info (announce bench (codes "next") maneuver late))).played
    ≡ 1 ∷ 3 ∷ 2 ∷ []
unfolding act_all start
turn-overtaken_example = ap (map (λ (x : Played). x.announcement.number)) (
    turn-overtaken bench late (record { text = codes "old"; priority = maneuver; number = 1 })
      (codes "next") (codes "hint") 2 0 1 5 refl refl (omega arith) refl refl refl refl refl speech)
