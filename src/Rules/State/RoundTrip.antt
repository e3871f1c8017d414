-- ===== src/Rules/State/RoundTrip.antt =====
-- internal/rules/engine.go, `loadMemory` and `saveMemory`: states are stored as
-- text. The states of this model stand for all the strings that Go's type has.
use pooly_sentinel.Prelude.{◌≡◌, refl, Text, text, text_eq, text_eq_iff, arith}
use pooly_sentinel.Rules.State.{State, to_state, state_text}

-- Whatever text was stored, reading it as a state and writing the state gives the text back.
pub state_text-to_state : (s : Text) → state_text (to_state s) ≡ s
unfolding to_state state_text
state_text-to_state s = ground (
  arith,
  text_eq_iff s (text "OK"),
  text_eq_iff s (text "PENDING_WARN"),
  text_eq_iff s (text "WARN"),
  text_eq_iff s (text "PENDING_FAIL"),
  text_eq_iff s (text "FAIL"),
  text_eq_iff s (text "CRITICAL"),
  text_eq_iff s (text "RECOVERING"),
  text_eq_iff s (text "RECOVERED"),
  text_eq_iff s (text "STALE"),
  text_eq_iff s (text "UNKNOWN"),
)

-- A state with a name of its own is read back as itself.
abbrev pub IsNamed : State → Type 0
IsNamed (State.other s) = ⊥
IsNamed _ = Unit

pub to_state-state_text : (state : State) → IsNamed state → to_state (state_text state) ≡ state
unfolding to_state state_text text text_eq
to_state-state_text (State.other s) h = absurd h
to_state-state_text State.unset h = refl
to_state-state_text _ h = refl
