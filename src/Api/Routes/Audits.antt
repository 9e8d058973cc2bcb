-- ===== src/Api/Routes/Audits.antt =====
-- Who sees how much of the audit log through `GET /api/v1/audit`.
use insightkit.Prelude.{
  ℕ, zero, suc, ◌+◌, ◌≤◌, Bool, ◌&&◌, Option, List, [], ◌∷◌, ◌≡◌, refl, ap, Text, text, keep,
  length, take, length-take, length-keep-le, arith, inl, inr, Bool-cases, leb→le, leb,
}
use mathlib.Core.List.{reverse, reverse_aux}
use insightkit.Prelude.Result.{Result, ok, err}
use insightkit.Prelude.Integers.{pos, negsuc}
use insightkit.Audit.{AuditRow, query, user_is, ts_from}
use insightkit.Access.Limiter.{RateLimiter}
use insightkit.Access.Users.{User}
use insightkit.Access.Auth.{Claims, HttpError, role_level, require_role}
use insightkit.Access.Gate.{IsKnown, require_role-IsKnown}
use insightkit.Pipeline.Kit.{Kit}
use insightkit.Api.Routes.{
  audit_rows, App, Headers, Reply, admitted, with_role, limited_query, max_audit_limit, audit,
}

module _ (kit : Kit) {A : Type 0} (handler : User → App kit → Reply kit A) where
  admitted-ok :
      (app app' : App kit) (r : Result HttpError User × RateLimiter) (a : A)
      → admitted kit handler app r ≡ (ok a, app')
      → (u : User) × (l : RateLimiter) × (r ≡ (ok u, l))
        × (handler u (record app { limiter = l }) ≡ (ok a, app'))
  unfolding admitted
  admitted-ok app app' (err e, l) a h = absurd (cc)
  admitted-ok app app' (ok u, l) a h = (u, l, refl, h)

length-reverse_aux :
    {A : Type 0} (xs ys : List A) → length (reverse_aux xs ys) ≡ length xs + length ys
length-reverse_aux [] ys = omega arith
length-reverse_aux (x ∷ xs) ys = omega (arith, length-reverse_aux xs (x ∷ ys))

take-all : {A : Type 0} (n : ℕ) (xs : List A) → length xs ≤ n → take n xs ≡ xs
take-all zero [] h = refl
take-all zero (x ∷ xs) h = absurd (omega arith)
take-all (suc n) [] h = refl
take-all (suc n) (x ∷ xs) h = ap (◌∷◌ x) (take-all n xs (omega arith))

length-query :
    (user since : Option Text) (limit : ℕ) (rows : List AuditRow)
    → length (query user since limit rows) ≤ limit
unfolding query
length-query user since limit rows =
    omega (arith, length-take limit (reverse (keep (λ r. user_is user r && ts_from since r) rows)))

query-all :
    (user since : Option Text) (rows : List AuditRow)
    → query user since (length rows) rows
      ≡ reverse (keep (λ r. user_is user r && ts_from since r) rows)
unfolding query
query-all user since rows =
    let kept = keep (λ r. user_is user r && ts_from since r) rows in
    take-all (length rows) (reverse kept) (
      omega (
        arith,
        length-reverse_aux kept [],
        length-keep-le (λ r. user_is user r && ts_from since r) rows,
      ))

module _ (decode : Text → Option Claims) (readable : Bool) (kit : Kit) where
  -- Whoever is shown rows of the audit log with a limit that is not negative is a known user whose
  -- role is of the level of an admin, and is shown at most a thousand rows, and at most as many as
  -- the limit says.
  pub audit-IsLimited :
      (user since : Option Text) (limit : ℕ) (h : Headers) (app app' : App kit)
      (rows : List AuditRow)
      → audit decode readable kit user since (pos limit) h app ≡ (ok rows, app')
      → (length rows ≤ 1000)
        × (length rows ≤ limit)
        × ((u : User) × IsKnown decode kit.sha256 readable app.users h.authorization h.api_key u
            × (role_level (text "admin") 99 ≤ role_level u.role 0))
  unfolding audit audit_rows with_role limited_query
  audit-IsLimited user since limit h app app' rows e =
      let (u, l, who, run) =
        admitted-ok kit (audit_rows kit user since (pos limit)) app app'
          (require_role decode kit.sha256 readable app.users (text "admin") h.authorization
            h.api_key h.now app.limiter)
          rows e in
      let (known, _, level) =
        require_role-IsKnown decode kit.sha256 readable app.users (text "admin") h.authorization
          h.api_key h.now app.limiter l u who in
      elim (Bool-cases (leb limit max_audit_limit)) [
        | inl fits ↦
            let same : query user since limit app.state.audit ≡ rows = cc (rw fits at run) in
            let few : length rows ≤ limit =
              rw⁻¹ same (length-query user since limit app.state.audit) in
            (omega (arith, few, leb→le limit max_audit_limit fits), few, (u, known, level))
        | inr big ↦ absurd (cc (rw big at run))
      ]

  -- A negative limit lifts the bound: an admin is shown every row that matches.
  pub audit_negative_limit :
      (user since : Option Text) (n : ℕ) (h : Headers) (app : App kit) (u : User) (l : RateLimiter)
      → require_role decode kit.sha256 readable app.users
          (text "admin")
          h.authorization
          h.api_key
          h.now
          app.limiter
        ≡ (ok u, l)
      → audit decode readable kit user since (negsuc n) h app ≡ (
        ok (reverse (keep (λ r. user_is user r && ts_from since r) app.state.audit)),
        record app { limiter = l },
      )
  unfolding audit audit_rows with_role limited_query admitted
  audit_negative_limit user since n h app u l e =
      rw e
        (ap (λ rows. (ok rows, record app { limiter = l })) (query-all user since app.state.audit))
