-- ===== src/Api/Masking/Keys.antt =====
-- API/masking.py: which keys are hidden. `str.lower` is modelled as far as ASCII patterns can see:
-- of the other characters, only the Kelvin sign and the dotted capital I, which lowers to an i and a
-- combining dot, lower to an ASCII letter.
use Prim.Native.Char.{code}
use sts2_rl.Prelude.{
  ℕ, ◌+◌, String, Bool, true, false, ◌&&◌, ◌||◌, List, [], ◌∷◌, ◌++◌, leb, ◌==◌, if◌then◌else◌, ◌≡◌,
  refl,
}
use sts2_rl.Api.Dto.{member}

-- The code points of a text.
abbrev pub codes : String → List ℕ
codes String.[] = []
codes (String.◌∷◌ c s) = code c ∷ codes s

lower_code : ℕ → List ℕ
lower_code c =
    if leb b'A' c && leb c b'Z'
    then (c + 32) ∷ []
    else if c == 0x212A
    then b'k' ∷ []
    else if c == 0x130
    then b'i' ∷ 0x307 ∷ []
    else c ∷ []

lower_all : List ℕ → List ℕ
unfolding lower_code
lower_all [] = []
lower_all (c ∷ cs) = lower_code c ++ lower_all cs

-- key.lower()
unfoldable pub lower : String → List ℕ
unfolding lower_all
lower key = lower_all (codes key)

unfoldable pub starts_with : List ℕ → List ℕ → Bool
starts_with [] text = true
starts_with (p ∷ pattern) [] = false
starts_with (p ∷ pattern) (c ∷ text) = p == c && starts_with pattern text

-- pattern in text
contains : List ℕ → List ℕ → Bool
unfolding starts_with
contains pattern [] = starts_with pattern []
contains pattern (c ∷ text) = starts_with pattern (c ∷ text) || contains pattern text

any_in : List String → List ℕ → Bool
unfolding contains
any_in [] text = false
any_in (p ∷ patterns) text = contains (codes p) text || any_in patterns text

abbrev pub forbidden_key_substrings : List String
forbidden_key_substrings =
    "snapshot" ∷ "savestate" ∷ "save_state" ∷ "replay" ∷ "lease" ∷ "worker" ∷ "pid" ∷ "generation"
    ∷ "combatsessionid" ∷ "combat_session_id" ∷ "sessionid" ∷ "session_id" ∷ "context_id"
    ∷ "contextid" ∷ "rngstate" ∷ "rng_state" ∷ "runrng" ∷ "run_rng" ∷ "seed" ∷ "hypothesis"
    ∷ "shuffle" ∷ "cursor" ∷ "eventqueue" ∷ "event_queue" ∷ "encounterqueue" ∷ "encounter_queue"
    ∷ "futureevents" ∷ "future_events" ∷ "upcomingencounters" ∷ "upcoming_encounters" ∷ "bossqueue"
    ∷ "boss_queue" ∷ "ancientqueue" ∷ "ancient_queue" ∷ "unknown_fields" ∷ []

unfoldable pub is_forbidden_key : String → Bool
unfolding any_in lower
is_forbidden_key key = any_in forbidden_key_substrings (lower key)

abbrev pub multiset_pile_keys : List String
multiset_pile_keys = "drawPile" ∷ "discardPile" ∷ "exhaustPile" ∷ []

abbrev pub delete_keys : List String
delete_keys = "playPile" ∷ "reward" ∷ []

abbrev pub allowlisted_metrics_extras_info_keys : List String
allowlisted_metrics_extras_info_keys = []

same_codes : List ℕ → List ℕ → Bool
same_codes [] [] = true
same_codes (a ∷ as') (b ∷ bs) = a == b && same_codes as' bs
same_codes _ _ = false

-- `key.lower() in _METRICS_EXTRAS_INFO_KEY_NAMES`
unfoldable pub is_metrics_key : String → Bool
unfolding same_codes lower
is_metrics_key key =
    same_codes (lower key) (codes "metrics")
    || (same_codes (lower key) (codes "extras") || same_codes (lower key) (codes "info"))

-- A key that no public object may have.
unfoldable pub is_hidden_key : String → Bool
is_hidden_key key = is_forbidden_key key || member key delete_keys

worker_key : is_forbidden_key "mainWorkerPid" ≡ true
unfolding is_forbidden_key
worker_key = refl

hand_key : is_hidden_key "hand" ≡ false
unfolding is_hidden_key is_forbidden_key member
hand_key = refl
