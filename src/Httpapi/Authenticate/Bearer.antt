-- ===== src/Httpapi/Authenticate/Bearer.antt =====
-- internal/httpapi/auth.go `bearerToken`: the token of a well-formed header.
use Prim.Native.Char.{Char}
use Prim.Native.String.{String, [], ◌∷◌}
use travelmap.Base.{◌≡◌, refl, ap, ◌∙◌, true, false, some, arith}
use travelmap.Base.Text.{append}
use travelmap.Httpapi.Authenticate.{
  Unicode, cons_first, cut_space, has_space, trim_left, unless_blank, trim_right, trim_space,
  token_of, bearer_token,
}

module _ (u : Unicode) where
  cut_space-append :
      (scheme : String) (c : Char) (s : String)
      → has_space u scheme ≡ false
      → u.is_space c ≡ true
      → cut_space u (append scheme (c ∷ s)) ≡ some (scheme, c ∷ s)
  unfolding cut_space has_space
  cut_space-append [] c s h e = rw e refl
  cut_space-append (d ∷ scheme) c s h e =
      let first : u.is_space d ≡ false = ground (arith, h) in
      rw first (ap (cons_first d) (cut_space-append scheme c s (ground (arith, h)) e))

  unless_blank-word : (c : Char) (t : String) → u.is_space c ≡ false → unless_blank u c t ≡ c ∷ t
  unless_blank-word c [] h = rw h refl
  unless_blank-word c (d ∷ t) h = refl

  trim_right-word : (s : String) → has_space u s ≡ false → trim_right u s ≡ s
  unfolding trim_right has_space
  trim_right-word [] h = refl
  trim_right-word (c ∷ s) h =
      ap (unless_blank u c) (trim_right-word s (ground (arith, h)))
      ∙ unless_blank-word c s (ground (arith, h))

  trim_left-word : (s : String) → has_space u s ≡ false → trim_left u s ≡ s
  unfolding trim_left has_space
  trim_left-word [] h = refl
  trim_left-word (c ∷ s) h = ground (arith, h)

  trim_space-word :
      (c : Char) (s : String)
      → u.is_space c ≡ true
      → has_space u s ≡ false
      → trim_space u (c ∷ s) ≡ s
  unfolding trim_space trim_left
  trim_space-word c s e h = rw (e, trim_left-word s h) (trim_right-word s h)

  -- The header of a scheme without spaces that is bearer but for its case, a space, and a
  -- token without spaces is read as that token.
  pub bearer_token-append :
      (scheme token : String) (c : Char)
      → has_space u scheme ≡ false
      → u.equal_fold scheme "bearer" ≡ true
      → u.is_space c ≡ true
      → has_space u token ≡ false
      → bearer_token u (append scheme (c ∷ token)) ≡ token
  unfolding bearer_token
  bearer_token-append scheme token c h b e t =
      ap (token_of u) (cut_space-append scheme c token h e)
      ∙ rw (b, trim_space-word c token e t, t) refl
