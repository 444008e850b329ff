-- ===== src/Api/Pages/Bounds.antt =====
-- The page that a query of internal/api/handlers/user_handler.go asks the store for.
use compose_cockpit.Base.{ℕ, ◌≤◌, ◌<◌, String, ◌&&◌, ◌≡◌, refl, leb, if◌then◌else◌, arith}
use compose_cockpit.Api.Pages.{
  PaginationOpts, positive, not_negative, parse_pagination, normalize_opts,
}

normalized_limit :
    (n : ℕ)
    → (1 ≤ (if positive n && leb n 100 then n else 50))
      × ((if positive n && leb n 100 then n else 50) ≤ 100)
normalized_limit n = ground arith

normalized_offset : (n : ℕ) → (if not_negative n then n else 0) < 9223372036854775808
normalized_offset n = ground arith

limit_again :
    (n : ℕ)
    → (if positive (if positive n && leb n 100 then n else 50)
          && leb (if positive n && leb n 100 then n else 50) 100
        then (if positive n && leb n 100 then n else 50)
        else 50)
      ≡ (if positive n && leb n 100 then n else 50)
limit_again n = ground arith

offset_again :
    (n : ℕ)
    → (if not_negative (if not_negative n then n else 0)
        then (if not_negative n then n else 0)
        else 0)
      ≡ (if not_negative n then n else 0)
offset_again n = ground arith

same_page :
    {a b c d : ℕ}
    → a ≡ b
    → c ≡ d
    → ◌≡◌ {A = PaginationOpts} (record { limit = a; offset = c }) (record { limit = b; offset = d })
same_page p q = rw (p, q) refl

-- Whatever the query holds, digits that overflow included, the store is asked for a page of 1 to 100
-- entries at an offset that is not negative, and normalizing the page once more changes nothing.
pub normalize_opts-parse_pagination :
    (limit offset : String)
    → (1 ≤ (normalize_opts (parse_pagination limit offset)).limit)
      × ((normalize_opts (parse_pagination limit offset)).limit ≤ 100)
      × ((normalize_opts (parse_pagination limit offset)).offset < 9223372036854775808)
      × (normalize_opts (normalize_opts (parse_pagination limit offset))
          ≡ normalize_opts (parse_pagination limit offset))
unfolding normalize_opts
normalize_opts-parse_pagination limit offset =
    let page = parse_pagination limit offset in
    let (low, high) = normalized_limit page.limit in
    (
      low,
      high,
      normalized_offset page.offset,
      same_page (limit_again page.limit) (offset_again page.offset),
    )
