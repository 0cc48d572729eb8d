-- ===== src/Migrate/Scripts.antt =====
-- What the statements of a script are.
use mathlib.Core.List.{reverse, reverse-append, reverse-cons}
use web_mail.Base.{
  ℕ, ◌≡◌, refl, ◌≢◌, subst, true, not, List, [], ◌∷◌, ◌++◌, map, Text, All, All-append, arith, keep,
  is_empty_iff, trim_space, trim_left, split, join, is_empty, Bool-cases, inl, inr,
}
use web_mail.Base.Trim.{
  All-keep, All-keep_test, keep-id, All-trim_space, IsTrimmed, StartsClean, trim_space-id,
  trim_space-IsTrimmed, StartsClean-append,
}
use web_mail.Base.Splitting.{Lacks, split-Lacks, split-All, split-join, join-split}
use web_mail.Migrate.Statements.{is_kept, statement_of, split_sql}

-- A line of a statement: no space around it, not empty, and it does not begin with two dashes.
abbrev pub IsLine : Text → Type 0
IsLine l = IsTrimmed l × (l ≢ []) × ((rest : Text) → l ≢ b'-' ∷ b'-' ∷ rest)

-- A statement that the driver is given: not empty, without a semicolon, of such lines.
abbrev pub IsStatement : Text → Type 0
IsStatement s = (s ≢ []) × Lacks b';' s × All IsLine (split 10 s)

pub is_kept-IsLine : (l : Text) → IsTrimmed l → is_kept l ≡ true → IsLine l
unfolding is_kept
is_kept-IsLine [] trimmed e = absurd (cc e)
is_kept-IsLine (c ∷ l) trimmed e =
    (trimmed, (λ p. cc), λ rest comment. not_comment rest (subst (λ s. is_kept s ≡ true) comment e))
  where
    not_comment : (rest : Text) → is_kept (b'-' ∷ b'-' ∷ rest) ≡ true → ⊥
    not_comment rest p = cc p

IsLine-is_kept : (l : Text) → IsLine l → is_kept l ≡ true
unfolding is_kept
IsLine-is_kept [] h = absurd (h.1 refl)
IsLine-is_kept (c ∷ []) h = ground arith
IsLine-is_kept (c ∷ d ∷ l) h = elim (Bool-cases (is_kept (c ∷ d ∷ l))) [
  | inl kept ↦ kept
  | inr dropped ↦
      let dashes : (c ≡ b'-') × (d ≡ b'-') = ground arith in
      absurd (h.2 l (rw (dashes.0, dashes.1) refl))
]

reverse-ne-nil : (s : Text) → s ≢ [] → reverse s ≢ []
reverse-ne-nil [] h = absurd (h refl)
reverse-ne-nil (c ∷ s) h = rw reverse-cons (not-snoc-nil (reverse s) c)
  where
    not-snoc-nil : (xs : Text) (x : ℕ) → xs ++ x ∷ [] ≢ []
    not-snoc-nil [] x = λ e. cc
    not-snoc-nil (y ∷ xs) x = λ e. cc

join-ne-nil : (l : Text) (ls : List Text) → l ≢ [] → join 10 (l ∷ ls) ≢ []
unfolding join
join-ne-nil l [] h = h
join-ne-nil [] (k ∷ ls) h = absurd (h refl)
join-ne-nil (c ∷ l) (k ∷ ls) h = λ e. cc

join-StartsClean : (l : Text) (ls : List Text) → IsLine l → StartsClean (join 10 (l ∷ ls))
unfolding join
join-StartsClean l [] h = h.0.0
join-StartsClean l (k ∷ ls) h = StartsClean-append l _ h.1 h.0.0

join-EndsClean :
    (l : Text) (ls : List Text) → All IsLine (l ∷ ls) → StartsClean (reverse (join 10 (l ∷ ls)))
unfolding join
join-EndsClean l [] h = h.0.0.1
join-EndsClean l (k ∷ ls) h =
    let more = join-ne-nil k ls h.1.0.1 in
    rw (reverse-append, reverse-cons)
      (StartsClean-append _ _ (snoc-ne-nil (reverse (join 10 (k ∷ ls))))
        (StartsClean-append _ _ (reverse-ne-nil _ more) (join-EndsClean k ls h.1)))
  where
    snoc-ne-nil : (xs : Text) → xs ++ 10 ∷ [] ≢ []
    snoc-ne-nil [] = λ e. cc
    snoc-ne-nil (y ∷ xs) = λ e. cc

join-IsTrimmed : (ls : List Text) → All IsLine ls → IsTrimmed (join 10 ls)
unfolding join
join-IsTrimmed [] h = (tt, tt)
join-IsTrimmed (l ∷ ls) h = (join-StartsClean l ls h.0, join-EndsClean l ls h)

map-trim_space-id : (ls : List Text) → All IsLine ls → map trim_space ls ≡ ls
map-trim_space-id [] h = refl
map-trim_space-id (l ∷ ls) h = rw (trim_space-id l h.0.0, map-trim_space-id ls h.1)

All-is_kept : (ls : List Text) → All IsLine ls → All (λ l. is_kept l ≡ true) ls
All-is_kept [] h = tt
All-is_kept (l ∷ ls) h = (IsLine-is_kept l h.0, All-is_kept ls h.1)

statement_of-id : (s : Text) → IsStatement s → statement_of s ≡ s
unfolding statement_of
statement_of-id s h =
    let lines = h.2 in
    let trimmed : IsTrimmed s = rw (join-split 10 s) at (join-IsTrimmed (split 10 s) lines) in
    rw
      (
        map-trim_space-id (split 10 s) lines,
        keep-id is_kept (split 10 s) (All-is_kept _ lines),
        join-split 10 s,
      )
      (trim_space-id s trimmed)

-- The lines that statementOf keeps.
kept_lines : Text → List Text
kept_lines s = keep is_kept (map trim_space (split 10 s))

All-map-trim_space :
    (P : ℕ → Type 0) (ls : List Text)
    → All (All P) ls
    → All (λ l. IsTrimmed l × All P l) (map trim_space ls)
All-map-trim_space P [] h = tt
All-map-trim_space P (l ∷ ls) h =
    ((trim_space-IsTrimmed l, All-trim_space P l h.0), All-map-trim_space P ls h.1)

zip_All :
    {A : Type 0} (P Q R : A → Type 0) (xs : List A)
    → ((x : A) → P x → Q x → R x)
    → All P xs
    → All Q xs
    → All R xs
zip_All P Q R [] f hp hq = tt
zip_All P Q R (x ∷ xs) f hp hq = (f x hp.0 hq.0, zip_All P Q R xs f hp.1 hq.1)

kept_lines-IsLine : (s : Text) → All IsLine (kept_lines s)
unfolding kept_lines
kept_lines-IsLine s =
    zip_All (λ l. IsTrimmed l × All (λ c. Unit {0}) l) (λ l. is_kept l ≡ true) IsLine _
      (λ l p e. is_kept-IsLine l p.0 e)
      (All-keep _ is_kept _ (All-map-trim_space (λ c. Unit {0}) _ (split-All 10 _ s (trivial s))))
      (All-keep_test is_kept _)
  where
    trivial : (t : Text) → All (λ c. Unit {0}) t
    trivial [] = tt
    trivial (c ∷ t) = (tt, trivial t)

kept_lines-Lacks :
    (sep : ℕ) (s : Text) → All (Lacks sep) (split 10 s) → All (Lacks sep) (kept_lines s)
unfolding kept_lines
kept_lines-Lacks sep s h =
    zip_All (λ l. IsTrimmed l × Lacks sep l) (λ l. is_kept l ≡ true) (Lacks sep) _ (λ l p e. p.1)
      (All-keep _ is_kept _ (All-map-trim_space _ _ h)) (All-keep_test is_kept _)

join-Lacks : (ls : List Text) → All (Lacks b';') ls → Lacks b';' (join 10 ls)
unfolding join
join-Lacks [] h = tt
join-Lacks (l ∷ []) h = h.0
join-Lacks (l ∷ k ∷ ls) h = All-append (λ c. _) l _ h.0 (ground arith, join-Lacks (k ∷ ls) h.1)

statement_of-join : (s : Text) → statement_of s ≡ join 10 (kept_lines s)
unfolding statement_of kept_lines
statement_of-join s = trim_space-id _ (join-IsTrimmed (kept_lines s) (kept_lines-IsLine s))

of_lines :
    (ls : List Text)
    → All IsLine ls
    → All (Lacks 10) ls
    → All (Lacks b';') ls
    → join 10 ls ≢ []
    → IsStatement (join 10 ls)
unfolding join
of_lines [] h whole plain some = absurd (some refl)
of_lines (l ∷ ls) h whole plain some =
    (some, join-Lacks (l ∷ ls) plain, rw (split-join 10 l ls whole.0 whole.1) h)

statement_of-IsStatement :
    (s : Text) → Lacks b';' s → statement_of s ≢ [] → IsStatement (statement_of s)
statement_of-IsStatement s plain some = rw (statement_of-join s) (
    of_lines (kept_lines s) (kept_lines-IsLine s) (kept_lines-Lacks 10 s (split-Lacks 10 s))
      (kept_lines-Lacks b';' s (split-All 10 _ s plain)) (rw (statement_of-join s) at some))

of_parts-AreStatements :
    (parts : List Text)
    → All (Lacks b';') parts
    → All IsStatement (keep (λ stmt. not (is_empty stmt)) (map statement_of parts))
unfolding keep
of_parts-AreStatements [] h = tt
of_parts-AreStatements (s ∷ parts) h = elim (Bool-cases (is_empty (statement_of s))) [
  | inl e ↦ rw e (of_parts-AreStatements parts h.1)
  | inr e ↦ rw e (
    statement_of-IsStatement s h.0 (λ p. cc ((is_empty_iff (statement_of s)).1 p)),
    of_parts-AreStatements parts h.1,
  )
]

-- Whatever a script holds, every statement that is sent to the database is not empty, has no
-- semicolon, and consists of trimmed lines that are not empty and do not begin with two dashes.
pub split_sql-AreStatements : (sql : Text) → All IsStatement (split_sql sql)
unfolding split_sql
split_sql-AreStatements sql = of_parts-AreStatements (split b';' sql) (split-Lacks b';' sql)

map-statement_of-id :
    (stmts : List Text)
    → All IsStatement stmts
    → keep (λ stmt. not (is_empty stmt)) (map statement_of stmts) ≡ stmts
unfolding keep
map-statement_of-id [] h = refl
map-statement_of-id (s ∷ stmts) h =
    rw (statement_of-id s h.0)
      (ground (arith, is_empty_iff s, map-statement_of-id stmts h.1, h.0.0))

All-Lacks : (stmts : List Text) → All IsStatement stmts → All (Lacks b';') stmts
All-Lacks [] h = tt
All-Lacks (s ∷ stmts) h = (h.0.1, All-Lacks stmts h.1)

-- Statements that are not empty and hold no semicolon, in lines that are trimmed, not empty and do
-- not begin with two dashes, joined with semicolons, are split into the same statements in the same
-- order.
pub split_sql-join :
    (stmts : List Text) → All IsStatement stmts → split_sql (join b';' stmts) ≡ stmts
unfolding split_sql
split_sql-join [] h = unfold join split statement_of is_kept trim_space trim_left keep in refl
split_sql-join (s ∷ stmts) h =
    rw (split-join b';' s stmts h.0.1 (All-Lacks stmts h.1)) (map-statement_of-id (s ∷ stmts) h)
