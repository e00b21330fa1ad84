-- ===== src/Controls/Hub/Operations/Stopped.antt =====
-- After `shut_down` nothing touches a chip (src/backend/src/controls.rs).
use carnine.Prelude.{ℕ, ◌≡◌, refl, Bool, true, List, [], ◌∷◌, arith}
use carnine.Controls.Types.{Value, unavailable}
use carnine.Controls.Board.{Board}
use carnine.Controls.Hub.{Hub, refused}
use carnine.Controls.Hub.Operations.{fails, set_value, set_overheated, retry_unavailable, shut_down}

-- The calls that the backend makes of the hub while it runs.
pub data Call : Type 0 where
  sets : List ℕ → Value → Call
  overheats : Bool → Call
  retries : Call

module _ (B : Board) where
  unfoldable pub serve : Hub B → Call → Hub B
  serve h (sets id value) = (set_value B h id value).0
  serve h (overheats overheated) = set_overheated B h overheated
  serve h retries = retry_unavailable B h

  unfoldable pub serve_all : Hub B → List Call → Hub B
  serve_all h [] = h
  serve_all h (c ∷ calls) = serve_all (serve h c) calls

  serve_stopped : (h : Hub B) (c : Call) → h.shutting_down ≡ true → serve h c ≡ h
  unfolding serve set_value set_overheated retry_unavailable
  serve_stopped h (sets id value) s = ground arith
  serve_stopped h (overheats b) s = ground arith
  serve_stopped h retries s = ground arith

  serve_all_stopped :
      (h : Hub B) (calls : List Call) → h.shutting_down ≡ true → serve_all h calls ≡ h
  unfolding serve_all
  serve_all_stopped h [] s = refl
  serve_all_stopped h (c ∷ calls) s = rw (serve_stopped h c s) (serve_all_stopped h calls s)

  -- Once the hub was shut down, no setting, no change of the overheat warning and no retry has any
  -- effect, on the hub or on the board behind it, and every setting is answered as unavailable.
  pub serve_all-shut_down :
      (h : Hub B) (calls : List Call) (id : List ℕ) (value : Value)
      → (serve_all (shut_down B h) calls ≡ shut_down B h)
        × ((set_value B (serve_all (shut_down B h) calls) id value).1 ≡ fails (refused unavailable))
  unfolding set_value
  serve_all-shut_down h calls id value =
      let e = serve_all_stopped (shut_down B h) calls (unfold shut_down in refl) in
      (e, rw e (unfold shut_down in refl))
