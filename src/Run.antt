-- ===== src/Run.antt =====
-- Run: the pieces that drive a whole run. A session is a given type `S` of states of the game with
-- the calls that are made to it; a call that changes the game gives the new state.
pub mod Drain
pub mod Picks
pub mod Leases
mod Examples
use sts2_rl.Prelude.{ℕ, String, Bool}

-- A legal action as the bridge gives it.
pub record Action : Type 0 where
  pub action_id : ℕ
  pub action_type : String
  pub is_available : Bool

-- A room of the map as the bridge gives it.
pub record Room : Type 0 where
  pub room_id : ℕ
  pub point_type : String
