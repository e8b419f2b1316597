-- ===== src/Httpapi/OauthState.antt =====
-- internal/httpapi/oauthstate.go: the states of the Foursquare sign-in, each good for one use within
-- its lifetime. The map is a list of entries under different tokens.
pub mod Once
use travelmap.Base.{
  ℕ, ◌+◌, ◌*◌, String, Bool, not, Option, none, some, List, [], ◌∷◌, find, filter, ltb,
  if◌then◌else◌,
}
use travelmap.Base.Text.{same_text}
use travelmap.Model.{Time, second}
use travelmap.Auth.{hex}

-- 5 * time.Minute
abbrev pub oauth_state_lifetime : ℕ
oauth_state_lifetime = 300 * second

pub record OauthStateEntry : Type 0 where
  pub user_id : ℕ
  pub expiry : Time

abbrev pub States : Type 0
States = List (String × OauthStateEntry)

unfoldable pub find_state : String → States → Option OauthStateEntry
find_state token [] = none
find_state token ((t, e) ∷ rest) =
    let others = find_state token rest in if same_text t token then some e else others

-- delete(s.states, token)
unfoldable pub delete_state : String → States → States
delete_state token states =
    filter (λ (s : String × OauthStateEntry). not (same_text s.0 token)) states

-- Time.After
abbrev pub is_over : Time → OauthStateEntry → Bool
is_over now entry = ltb entry.expiry now

unfoldable pub prune : Time → States → States
prune now states = filter (λ (s : String × OauthStateEntry). not (is_over now s.1)) states

-- s.states[token] = entry
unfoldable pub put_state : String → OauthStateEntry → States → States
unfolding delete_state
put_state token entry states = (token, entry) ∷ delete_state token states

-- `New`, with the bytes that rand.Read gives and the two readings of the clock.
unfoldable pub new_state : Option (List ℕ) → Time → Time → ℕ → States → Option String × States
unfolding prune put_state
new_state none pruned now user states = (none, states)
new_state (some bytes) pruned now user states = (
  some (hex bytes),
  put_state (hex bytes) (record { user_id = user; expiry = now + oauth_state_lifetime })
      (prune pruned states),
)

abbrev pub accepted : Time → Option OauthStateEntry → Option ℕ
accepted now none = none
accepted now (some entry) = if is_over now entry then none else some entry.user_id

-- `Consume`: none is its false.
unfoldable pub consume : Time → String → States → Option ℕ × States
unfolding find_state delete_state
consume now token states = (accepted now (find_state token states), delete_state token states)
