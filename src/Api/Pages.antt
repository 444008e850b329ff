-- ===== src/Api/Pages.antt =====
-- parsePagination and parseInt of internal/api/handlers/user_handler.go, and normalizeOpts of
-- internal/store/audit_repo.go. A Go int is kept as its 64 bits: a number from 2 ^ 63 on is negative.
pub mod Bounds
use Prim.Native.Char.{Char, code}
use Prim.Native.String
use compose_cockpit.Base.{
  ℕ, zero, suc, ◌+◌, ◌*◌, ◌-◌, ◌%◌, ◌^◌, String, Bool, true, false, ◌&&◌, ◌||◌, same, leb, ltb,
  ◌==◌, if◌then◌else◌,
}

pub record PaginationOpts : Type 0 where
  pub limit : ℕ
  pub offset : ℕ

digit : Char → Bool
digit c = let n = code c in leb 48 n && leb n 57

-- The loop of parseInt.
unfoldable pub parse_digits : String → ℕ → ℕ
unfolding digit
parse_digits String.[] n = n
parse_digits (String.◌∷◌ c s) n =
    let rest = parse_digits s ((n * 10 + (code c - 48)) % 2 ^ 64) in if digit c then rest else n

unfoldable pub parse_int : String → ℕ
unfolding parse_digits
parse_int s = parse_digits s 0

-- `n >= 0` and `n > 0` on an int.
abbrev pub not_negative : ℕ → Bool
not_negative n = ltb n 9223372036854775808

abbrev pub positive : ℕ → Bool
positive n = ltb 0 n && ltb n 9223372036854775808

-- The query values of a request; an absent one is "".
unfoldable pub parse_pagination : String → String → PaginationOpts
unfolding parse_int
parse_pagination limit offset = record {
  limit = if same limit "" then 50 else let n = parse_int limit in if positive n then n else 50;
  offset =
      if same offset "" then 0 else let n = parse_int offset in if not_negative n then n else 0;
}

-- normalizeOpts
unfoldable pub normalize_opts : PaginationOpts → PaginationOpts
normalize_opts opts = record {
  limit = if positive opts.limit && leb opts.limit 100 then opts.limit else 50;
  offset = if not_negative opts.offset then opts.offset else 0;
}
