-- ===== src/Csrf/Tokens.antt =====
-- Which requests pass the CSRF middleware.
use nimburion.Base.{
  ◌≡◌, refl, sym, ◌↔◌, ◌⊎◌, inl, inr, Text, Bool, true, false, not, ◌&&◌, ◌||◌, Bool-cases, Option,
  none, some, Option-cases, ℤ, is_empty, eq_text, eq_text_iff, eq_text→eq, subst, trim_space,
  if◌then◌else◌, lookup, arith,
}
use nimburion.Effect.{Result, ok}
use nimburion.Csrf.{
  Config, Request, Session, Cookie, Outcome, forbidden, passed, normalize_config, is_exempt,
  sent_token, session_token_key, session_token, csrf_cookie, middleware,
}

abbrev pub IsPassed : Outcome → Type 0
IsPassed (passed s cookie) = Unit {0}
IsPassed _ = ⊥

-- The token that a session holds; none where it is missing or blank.
abbrev pub held : Session → Option Text
held s = elim (lookup session_token_key s) [
  | none ↦ none
  | some token ↦ if is_empty (trim_space token) then none else some token
]

session_token-held :
    (s : Session) (token : Text) (generated : Result Text)
    → held s ≡ some token
    → session_token s generated ≡ ok (token, s)
unfolding session_token
session_token-held s token generated h = elim (Option-cases (lookup session_token_key s)) [
  | inl missing ↦ absurd (ground (arith, h, missing))
  | inr (t, there) ↦ ground (arith, h, there)
]

abbrev agrees : Config → Request → Text → Bool
agrees c req token =
    is_exempt c req || (not (is_empty (sent_token c req)) && eq_text (sent_token c req) token)

middleware-decides :
    (given : Config) (req : Request) (s : Session) (token : Text) (generated : Result Text)
    (seconds now : ℤ)
    → given.enabled ≡ true
    → held s ≡ some token
    → middleware given req (some s) generated seconds now ≡ (
        if agrees (normalize_config given) req token
        then passed s (csrf_cookie (normalize_config given) token seconds now)
        else forbidden s (csrf_cookie (normalize_config given) token seconds now))
unfolding middleware
middleware-decides given req s token generated seconds now on h =
    ground (arith, session_token-held s token generated h, enabled-normalized given, on)
  where
    enabled-normalized : (c : Config) → (normalize_config c).enabled ≡ c.enabled
    enabled-normalized c = unfold normalize_config in refl

agrees_iff :
    (c : Config) (req : Request) (token : Text)
    → (agrees c req token ≡ true) ↔ (
        (is_exempt c req ≡ true)
        ⊎ ((sent_token c req ≡ token) × (is_empty (sent_token c req) ≡ false)))
agrees_iff c req token = (
  λ h. elim (Bool-cases (is_exempt c req)) [
    | inl e ↦ inl e
    | inr k ↦ inr (eq_text→eq (sent_token c req) token (ground arith), ground arith)
  ],
  λ h. elim h [
    | inl e ↦ rw e refl
    | inr (e, f) ↦ ground (arith, eq_text_iff (sent_token c req) token, e, f)
  ],
)

decided :
    (b : Bool) (s : Session) (cookie : Cookie)
    → IsPassed (if b then passed s cookie else forbidden s cookie) ↔ (b ≡ true)
decided true s cookie = (λ h. refl, λ h. tt)
decided false s cookie = (λ h. absurd h, λ h. cc)

-- With a token in the session, a request reaches the handler exactly if it is exempt or sends that
-- token, which then is not empty.
pub middleware-IsPassed_iff :
    (given : Config) (req : Request) (s : Session) (token : Text) (generated : Result Text)
    (seconds now : ℤ)
    → given.enabled ≡ true
    → held s ≡ some token
    → let c = normalize_config given in
      IsPassed (middleware given req (some s) generated seconds now) ↔ (
        (is_exempt c req ≡ true)
        ⊎ ((sent_token c req ≡ token) × (is_empty (sent_token c req) ≡ false)))
middleware-IsPassed_iff given req s token generated seconds now on h =
    let c = normalize_config given in
    let cookie = csrf_cookie c token seconds now in
    let e = middleware-decides given req s token generated seconds now on h in
    let (f, g) = decided (agrees c req token) s cookie in
    let (j, k) = agrees_iff c req token in
    (λ p. j (f (subst IsPassed e p)), λ q. subst IsPassed (sym e) (g (k q)))
