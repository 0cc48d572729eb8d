-- ===== src/Migrate/Dsn.antt =====
-- What Connect opens.
use mathlib.Core.Option.{some-injective}
use mathlib.Core.Sum.{inr-injective}
use web_mail.Base.{
  ◌≡◌, refl, ap, sym, subst, ◌∙◌, true, false, some, Text, is_empty, trim_space, Bool-cases, inl,
  inr, Option-cases,
}
use web_mail.Migrate.Connect.{Mysql, normalize_mysql_dsn, connect}

-- What the driver's package documents of its configurations. Those that ParseDSN returns have their
-- defaults filled in, and to set parseTime leaves these as they are; ParseDSN reads back such a
-- configuration from what FormatDSN prints of it, which is not blank.
pub record IsFaithful (lib : Mysql) : Type 1 where
  pub IsNormal : lib.Config → Type 0
  pub parsed_normal : (dsn : Text) (c : lib.Config) → lib.parse_dsn dsn ≡ some c → IsNormal c
  pub set_normal : (c : lib.Config) → IsNormal c → IsNormal (lib.with_parse_time true c)
  pub read_back : (c : lib.Config) → IsNormal c → lib.parse_dsn (lib.format_dsn c) ≡ some c
  pub set_twice :
      (c : lib.Config)
      → lib.with_parse_time true (lib.with_parse_time true c) ≡ lib.with_parse_time true c
  pub not_blank : (c : lib.Config) → is_empty (trim_space (lib.format_dsn c)) ≡ false

module _ (lib : Mysql) where
  normalize-named :
      (dsn : Text) (c : lib.Config)
      → is_empty (trim_space dsn) ≡ false
      → lib.parse_dsn dsn ≡ some c
      → normalize_mysql_dsn lib dsn ≡ some (lib.format_dsn (lib.with_parse_time true c))
  unfolding normalize_mysql_dsn
  normalize-named dsn c named parsed = rw (normalize_mysql_dsn, named, parsed) refl

  normalize-parsed :
      (dsn out : Text)
      → normalize_mysql_dsn lib dsn ≡ some out
      → (c : lib.Config) × (lib.parse_dsn dsn ≡ some c)
        × (out ≡ lib.format_dsn (lib.with_parse_time true c))
  unfolding normalize_mysql_dsn
  normalize-parsed dsn out e = elim (Bool-cases (is_empty (trim_space dsn))) [
    | inl blank ↦ absurd (cc (rw (normalize_mysql_dsn, blank) at e))
    | inr named ↦ elim (Option-cases (lib.parse_dsn dsn)) [
      | inl bad ↦ absurd (cc (rw (normalize_mysql_dsn, named, bad) at e))
      | inr (c, parsed) ↦
          (c, parsed, some-injective _ _ (sym e ∙ normalize-named dsn c named parsed))
    ]
  ]

  connect-opened :
      (dsn : Text) (db : lib.driver.State)
      → connect lib dsn ≡ inr db
      → (out : Text) × (normalize_mysql_dsn lib dsn ≡ some out)
        × (lib.open_database out ≡ some db)
        × (lib.ping db ≡ true)
  unfolding connect
  connect-opened dsn db e = elim (Option-cases (normalize_mysql_dsn lib dsn)) [
    | inl bad ↦ absurd (cc (rw bad at e))
    | inr (out, named) ↦ elim (Option-cases (lib.open_database out)) [
      | inl closed ↦ absurd (cc (rw (named, closed) at e))
      | inr (db', open_) ↦ elim (Bool-cases (lib.ping db')) [
        | inl alive ↦
            let same : db' ≡ db = inr-injective _ _ (rw (named, open_, alive) at e) in
            (out, named, open_ ∙ ap some same, subst (λ x. lib.ping x ≡ true) same alive)
        | inr dead ↦ absurd (cc (rw (named, open_, dead) at e))
      ]
    ]
  ]

-- When Connect returns a database, it was opened with a name that ParseDSN reads as the configuration
-- of the given one with parseTime set, if ParseDSN reads back what FormatDSN prints; it answered the
-- ping, and to connect with that name gives the same database.
pub connect_lem :
    (lib : Mysql) (dsn : Text) (db : lib.driver.State)
    → IsFaithful lib
    → connect lib dsn ≡ inr db
    → (c : lib.Config) × (out : Text) × (lib.parse_dsn dsn ≡ some c)
      × (lib.parse_dsn out ≡ some (lib.with_parse_time true c))
      × (lib.open_database out ≡ some db)
      × (lib.ping db ≡ true)
      × (connect lib out ≡ inr db)
unfolding connect
connect_lem lib dsn db laws e =
    let (out, named, open_, alive) = connect-opened lib dsn db e in
    let (c, parsed, same) = normalize-parsed lib dsn out named in
    let set = lib.with_parse_time true c in
    let again : lib.parse_dsn out ≡ some set =
      subst (λ o. lib.parse_dsn o ≡ some set) (sym same)
        (laws.read_back set (laws.set_normal c (laws.parsed_normal dsn c parsed))) in
    let renormalized : normalize_mysql_dsn lib out ≡ some out =
      normalize-named lib out set
        (subst (λ o. is_empty (trim_space o) ≡ false) (sym same) (laws.not_blank set)) again
      ∙ ap (λ x. some (lib.format_dsn x)) (laws.set_twice c)
      ∙ ap some (sym same) in
    (c, out, parsed, again, open_, alive, rw (renormalized, open_, alive) refl)
