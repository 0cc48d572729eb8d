-- ===== src/Migrate/Statements.antt =====
-- internal/db/migrate.go: splitSQL.
use web_mail.Base.{
  Bool, not, ◌||◌, List, map, Text, codes, has_prefix, trim_space, is_empty, keep, split, join,
}

-- A line, with the space around it gone, that is kept.
unfoldable pub is_kept : Text → Bool
unfolding has_prefix
is_kept line = not (has_prefix line (codes "--") || is_empty line)

unfoldable pub statement_of : Text → Text
statement_of s = trim_space (join 10 (keep is_kept (map trim_space (split 10 s))))

unfoldable pub split_sql : Text → List Text
split_sql sql = keep (λ stmt. not (is_empty stmt)) (map statement_of (split b';' sql))
