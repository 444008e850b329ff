-- ===== src/Api/Health.antt =====
-- internal/api/handlers/health_handler.go: the endpoints without a login, by what the database and the
-- daemon answer to a ping; `none` is no error.
use mathlib.Core.Option.{some-injective}
use compose_cockpit.Base.{
  ap, sym, ◌∙◌, String, Bool, false, not, ◌||◌, Option, none, some, [], ◌∷◌, ◌≡◌, ◌↔◌, ◌≢◌, refl,
  same, if◌then◌else◌,
}
use compose_cockpit.Base.Dict.{Dict, lookup}
use compose_cockpit.Base.Text.{cat, cut, has}
use compose_cockpit.Base.Text.Laws.{cat-sep, cut-cat}
use compose_cockpit.Api.Reply.{Reply, success, failure}

unfoldable pub liveness : Reply (Dict String)
liveness = success 200 (("status", "ok") ∷ [])

unfoldable pub check_text : Option String → String
check_text none = "healthy"
check_text (some e) = cat "unhealthy: " e

-- The loop over the checks: the status ends at the first that is not healthy.
unfoldable pub any_unhealthy : Dict String → Bool
any_unhealthy [] = false
any_unhealthy ((k, v) ∷ checks) = not (same v "healthy") || any_unhealthy checks

unfoldable pub readiness : Option String → Option String → Reply (Dict String)
unfolding check_text any_unhealthy
readiness database docker =
    let checks : Dict String =
      ("database", check_text database) ∷ ("docker", check_text docker) ∷ [] in
    success (if any_unhealthy checks then 503 else 200) checks

unfoldable pub version : String → Reply (Dict String)
version v = success 200 (("version", v) ∷ [])

unhealthy_text : (e : String) → cat "unhealthy: " e ≢ "healthy"
unfolding cut has
unhealthy_text e h =
    let found = ap (cut " ") (cat-sep " " "unhealthy:" e) ∙ cut-cat " " "unhealthy:" e refl in
    let f = sym found ∙ ap (cut " ") h in absurd (cc)

abbrev text_at : String → Reply (Dict String) → Option String
text_at k (success status checks) = lookup k checks
text_at k (failure _ _ _ _) = none

-- The server is ready exactly if neither the database nor the daemon answers with an error, whatever
-- the text of the error is.
readiness-ready :
    (database docker : Option String)
    → (readiness database docker
        ≡ success 200 (("database", "healthy") ∷ ("docker", "healthy") ∷ []))
      ↔ (database ≡ none) × (docker ≡ none)
unfolding readiness check_text
readiness-ready none none = ((λ e. (refl, refl)), (λ h. refl))
readiness-ready (some e) docker = (
  (λ h. absurd (unhealthy_text e (some-injective _ _ (ap (text_at "database") h)))),
  (λ h. absurd (let f = h.0 in cc)),
)
readiness-ready none (some e) = (
  (λ h. absurd (unhealthy_text e (some-injective _ _ (ap (text_at "docker") h)))),
  (λ h. absurd (let f = h.1 in cc)),
)
