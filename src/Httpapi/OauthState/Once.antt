-- ===== src/Httpapi/OauthState/Once.antt =====
-- internal/httpapi/oauthstate.go: the store as a map from tokens to entries, and the one use of a
-- state.
use mathlib.Core.Path.{fun_ext}
use travelmap.Base.{
  ℕ, ◌+◌, ◌≡◌, refl, sym, ap, ◌∙◌, String, Option, none, some, List, [], ◌∷◌, ltb, if◌then◌else◌,
  arith, Bool-cases, inl, inr,
}
use travelmap.Base.Text.{same_text, same_text_refl, same_text_left, same_text_comm}
use travelmap.Model.{Time}
use travelmap.Auth.{hex}
use travelmap.Httpapi.OauthState.{
  OauthStateEntry, States, oauth_state_lifetime, find_state, delete_state, prune, put_state,
  new_state, accepted, consume,
}

-- What `Consume` finds, by its token.
abbrev pub state_map : States → String → Option OauthStateEntry
state_map states token = find_state token states

delete-find :
    (token t : String) (states : States)
    → find_state t (delete_state token states)
      ≡ (if same_text token t then none else find_state t states)
unfolding find_state delete_state
delete-find token t [] = ground arith
delete-find token t ((k, e) ∷ rest) = elim (Bool-cases (same_text k token)) [
  | inl h ↦ rw (h, same_text_left k token t h) (ground (arith, delete-find token t rest))
  | inr h ↦ elim (Bool-cases (same_text k t)) [
    | inl g ↦ rw (h, g, sym (same_text_comm t token) ∙ sym (same_text_left k t token g) ∙ h) refl
    | inr g ↦ rw (h, g) (delete-find token t rest)
  ]
]

put-find :
    (token t : String) (entry : OauthStateEntry) (states : States)
    → find_state t (put_state token entry states)
      ≡ (if same_text token t then some entry else find_state t states)
unfolding find_state put_state
put-find token t entry states = elim (Bool-cases (same_text token t)) [
  | inl h ↦ rw h refl
  | inr h ↦ rw h (delete-find token t states ∙ rw h refl)
]

put_self :
    (token : String) (entry : OauthStateEntry) (states : States)
    → find_state token (put_state token entry states) ≡ some entry
put_self token entry states = put-find token token entry states ∙ rw (same_text_refl token) refl

delete_self :
    (token : String) (states : States) → find_state token (delete_state token states) ≡ none
delete_self token states = delete-find token token states ∙ rw (same_text_refl token) refl

-- `Consume` takes its token away and no other, and answers by what was there.
pub consume-map :
    (now : Time) (token : String) (states : States)
    → ((consume now token states).0 ≡ accepted now (state_map states token))
      × (state_map (consume now token states).1
          ≡ (λ t. if same_text token t then none else state_map states t))
unfolding consume
consume-map now token states = (refl, fun_ext λ t. delete-find token t states)

-- A state that was issued is accepted within its lifetime, once.
pub record IsGoodOnce (user : ℕ) (issued : Time) (token : String) (states : States) : Type 0 where
  pub first :
      (now : Time)
      → (consume now token states).0
        ≡ (if ltb (issued + oauth_state_lifetime) now then none else some user)
  pub second : (now later : Time) → (consume later token (consume now token states).1).0 ≡ none

-- A state that was just issued to a user is accepted for that user up to five minutes after,
-- and not later; and once it was asked for, at any time, it is not accepted again.
pub new_state-IsGoodOnce :
    (bytes : List ℕ) (pruned now : Time) (user : ℕ) (states : States)
    → IsGoodOnce user now (hex bytes) (new_state (some bytes) pruned now user states).1
unfolding consume new_state
new_state-IsGoodOnce bytes pruned now user states =
    let entry : OauthStateEntry = record { user_id = user; expiry = now + oauth_state_lifetime } in
    let token = hex bytes in
    let stored = put_state token entry (prune pruned states) in
    record {
      first = λ t. ap (accepted t) (put_self token entry (prune pruned states));
      second = λ t later. ap (accepted later) (delete_self token stored);
    }
