-- ===== src/Server/Access.antt =====
-- What a request without the token can reach.
use sync_bridge.Base.{
  ◌≡◌, ◌≢◌, refl, ap, sym, subst, ◌∙◌, inl, inr, Bool, true, false, Bool-cases, Option,
  Option-cases, List, [], ◌∷◌, All,
}
use mathlib.Core.List.{Memᴰ}
use mathlib.Core.List.Memᴰ.{head, tail}
use sync_bridge.Text.{Bytes, str, eqb, has_prefix, has_suffix}
use sync_bridge.Middleware.{Verdict, next, denied, auth_middleware, is_public, is_graphql, is_rest}
use sync_bridge.Middleware.Auth.{auth_middleware-denied_iff}
use sync_bridge.Handlers.Host.{Host}
use sync_bridge.Server.{
  page, Route, routes, Matches, IsRouter, Incoming, ServerState, World, call_handler, routed,
  admitted, serve,
}

module _ {ℓ κ} {A : Type ℓ} (P : A → Type κ) where
  All-at : (xs : List A) (a : A) → All P xs → Memᴰ a xs → P a
  All-at [] a all m = elim m [ ]
  All-at (x ∷ xs) a (p, ps) (head e) = subst P (sym e) p
  All-at (x ∷ xs) a (p, ps) (tail m) = All-at xs a ps m

-- A route to a page, or one for public paths, GraphQL paths or paths of the sync API only.
abbrev IsGuarded : Route → Type 0
IsGuarded r =
    (path value : Bytes)
    → Matches r.pattern path value
    → is_public path ≡ false
    → is_graphql path ≡ false
    → is_rest path ≡ false
    → r.endpoint ≡ page

wrong_path : (f : Bytes → Bool) (p path : Bytes) → path ≡ p → f p ≡ true → f path ≡ false → ⊥
wrong_path f p path e holds fails = cc (sym (ap f e ∙ holds) ∙ fails)

routes-IsGuarded : All IsGuarded routes
unfolding routes eqb str has_prefix has_suffix
routes-IsGuarded = (
  λ path v m p g r. refl,
  (
    λ path v m p g r. refl,
    (
      λ path v m p g r. refl,
      (
        λ path v m p g r. refl,
        (
          λ path v m p g r. absurd (wrong_path is_public _ path m refl p),
          (
            λ path v m p g r. absurd (wrong_path is_rest _ path m refl r),
            (
              λ path v m p g r. absurd (wrong_path is_rest _ path m refl r),
              (
                λ path v m p g r. absurd (wrong_path is_rest _ path m refl r),
                (
                  λ path v (m, _) p g r. absurd (wrong_path is_rest _ path m refl r),
                  (
                    λ path v (m, _) p g r. absurd (wrong_path is_rest _ path m refl r),
                    (
                      λ path v (m, _) p g r. absurd (wrong_path is_rest _ path m refl r),
                      (
                        λ path v m p g r. absurd (wrong_path is_graphql _ path m refl g),
                        (
                          λ path v m p g r. absurd (wrong_path is_graphql _ path m refl g),
                          (λ path v m p g r. refl, (λ path v m p g r. refl, tt)),
                        ),
                      ),
                    ),
                  ),
                ),
              ),
            ),
          ),
        ),
      ),
    ),
  ),
)

module _ (h : Host) {Time : Type 0} (parse : Bytes → Bytes → Option Time) (w : World h parse)
    (router : IsRouter w.find_route) where
  next-unchanged :
      (r : Incoming) (s : ServerState h parse)
      → is_public r.http.path ≡ false
      → is_graphql r.http.path ≡ false
      → is_rest r.http.path ≡ false
      → (admitted h parse w next r s).1 ≡ s
  unfolding admitted
  next-unchanged r s p g fails =
      elim (Option-cases (w.find_route routes r.http.method r.http.path)) [
        | inl missing ↦ rw (missing, routed) refl
        | inr ((e, id), found) ↦
            let (x, m, _, to, matches) = router.sound routes r.http.method r.http.path e id found in
            let is_page =
              sym to
              ∙ All-at IsGuarded routes x routes-IsGuarded m r.http.path id matches p g fails in
            rw (found, routed, is_page, call_handler) refl
      ]

  admitted-unchanged :
      (v : Verdict) (r : Incoming) (s : ServerState h parse)
      → is_public r.http.path ≡ false
      → is_graphql r.http.path ≡ false
      → is_rest r.http.path ≡ false
      → (admitted h parse w v r s).1 ≡ s
  admitted-unchanged next r s p g fails = next-unchanged r s p g fails
  admitted-unchanged denied r s p g fails = unfold admitted in refl

  -- If the router finds only routes of the table whose pattern the path has, a request with a wrong
  -- token, or with none, to a path that is neither a health path nor a GraphQL path changes nothing
  -- at all: no table, no subscription and no counter.
  pub serve-unchanged :
      (auth_token : Bytes) (r : Incoming) (s : ServerState h parse)
      → r.http.token ≢ auth_token
      → is_public r.http.path ≡ false
      → is_graphql r.http.path ≡ false
      → (serve h parse w auth_token r s).1 ≡ s
  unfolding serve
  serve-unchanged auth_token r s wrong p g = elim (Bool-cases (is_rest r.http.path)) [
    | inl rest ↦
        let stopped =
          (auth_middleware-denied_iff auth_token r.http).1 ((p, inr (g, rest)), inr wrong) in
        ap (λ v. (admitted h parse w v r s).1) stopped ∙ unfold admitted in refl
    | inr fails ↦ admitted-unchanged (auth_middleware auth_token r.http) r s p g fails
  ]
