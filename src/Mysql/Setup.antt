-- ===== src/Mysql/Setup.antt =====
-- When `Init` of MySQL succeeds, and what it leaves then.
use kubemonitor.Common.{
  ◌^◌, ◌≡◌, ◌≢◌, ◌↔◌, inl, inr, refl, sym, ap, ◌∙◌, subst, Bool, false, ◌&&◌, ◌||◌, Option, none,
  some, ◌∷◌, ◌++◌, ◌==◌, if◌then◌else◌, Bool-cases, length, Text, codes, one_of, lookup, is_some,
  has_suffix,
}
use kubemonitor.Common.Int.{ℤ, pos, ◌*ℤ◌, eq_ℤ}
use kubemonitor.Strconv.{parse_int}
use kubemonitor.Conv.{wrap64}
use kubemonitor.Writer.{Outcome, ok, failed}
use kubemonitor.Factory.{ConfigMap, get}
use kubemonitor.Mysql.Config.{
  Instance, Dsn, always, with_account, with_flags, is_on, raw_dsn, with_timeout, init_valid_metrics,
  init_named, init_flagged, init_timed, init,
}
use kubemonitor.Mysql.Names.{optional_status_vars, optional_innodb_vars}
use kubemonitor.Mysql.Valid.{init_valid_metrics_lem}

-- The timeout of the driver, in nanoseconds: the one of the name, or the configured seconds, or 3.
abbrev pub driver_timeout : ℤ → ℤ → ℤ
driver_timeout named seconds =
    if eq_ℤ named (pos 0)
    then wrap64 (pos (10 ^ 9) *ℤ (if eq_ℤ seconds (pos 0) then pos 3 else seconds))
    else named

-- The name of the data source that the configuration gives.
abbrev pub configured_name : ConfigMap → Text
configured_name config =
    get config (codes "username")
    ++ b':' ∷ get config (codes "password")
    ++ b'@'
      ∷ (if has_suffix (get config (codes "address")) (codes ".sock")
          then codes "unix"
          else codes "tcp")
    ++ b'(' ∷ get config (codes "address")
    ++ codes ")/?"
    ++ get config (codes "parameters")

module _ {C : Type 0} (driver : Dsn C) where
  -- What a successful `Init` leaves: the address, the names, and the name of the data source.
  abbrev pub IsConfigured : ConfigMap → ℤ → C → Instance → Type 0
  IsConfigured config seconds conf ins =
      (ins.address ≡ get config (codes "address"))
      × (ins.dsn
          ≡ driver.format (
              if eq_ℤ (driver.timeout conf) (pos 0)
              then driver.with_timeout (driver_timeout (pos 0) seconds) conf
              else conf))
      × ((k : Text)
          → is_some (lookup k ins.valid_metrics) ≡ (
              one_of always k
              || (is_on config (codes "extra_status_metrics") && one_of optional_status_vars k)
              || (is_on config (codes "extra_innodb_metrics") && one_of optional_innodb_vars k)))

  timed-ok :
      (config : ConfigMap) (ins : Instance) (o : Option ℤ)
      → (init_timed driver config ins o).0 ≡ ok
      → (seconds : ℤ) × (o ≡ some seconds)
        × ((init_flagged driver (with_flags config seconds ins)).0 ≡ ok)
  unfolding init_timed
  timed-ok config ins none h = cc
  timed-ok config ins (some seconds) h = (seconds, refl, h)

  named-ok :
      (ins : Instance) (o : Option C)
      → (init_named driver ins o).0 ≡ ok
      → (conf : C) × (o ≡ some conf)
  unfolding init_named
  named-ok ins none h = cc
  named-ok ins (some conf) h = (conf, refl)

  flagged-ok :
      (ins : Instance)
      → (init_flagged driver ins).0 ≡ ok
      → (length ins.address == 0 ≡ false) × (conf : C) × (driver.parse (raw_dsn ins) ≡ some conf)
  unfolding init_flagged
  flagged-ok ins h = elim (Bool-cases (length ins.address == 0)) [
    | inl e ↦ absurd (failed-ne (sym (ap (λ b. (at_address b).0) e) ∙ h))
    | inr e ↦
        let (conf, parsed) =
          named-ok _ (driver.parse (raw_dsn ins)) (sym (ap (λ b. (at_address b).0) e) ∙ h) in
        (e, conf, parsed)
  ]
    where
      at_address : Bool → Outcome × Instance
      at_address b =
          if b
          then (failed, ins)
          else init_named driver (record ins { dsn = raw_dsn ins }) (driver.parse (raw_dsn ins))

      failed-ne : failed ≢ ok
      failed-ne e = cc

  -- The result of a successful `Init`.
  init-some :
      (config : ConfigMap) (ins : Instance) (seconds : ℤ) (conf : C)
      → parse_int (get config (codes "timeout_seconds")) ≡ some seconds
      → length (get config (codes "address")) == 0 ≡ false
      → let flagged = with_flags config seconds (with_account config ins) in
        driver.parse (raw_dsn flagged) ≡ some conf
        → init driver config ins ≡ (
          ok,
          init_valid_metrics (with_timeout driver conf (record flagged { dsn = raw_dsn flagged })),
        )
  unfolding init init_flagged init_timed init_named
  init-some config ins seconds conf timed there parsed =
      let account = with_account config ins in
      let flagged = with_flags config seconds account in
      let named : Option C → Outcome × Instance =
        init_named driver (record flagged { dsn = raw_dsn flagged }) in
      let at_address : Bool → Outcome × Instance =
        λ b. if b then (failed, flagged) else named (driver.parse (raw_dsn flagged)) in
      ap (init_timed driver config account) timed ∙ ap at_address there ∙ ap named parsed

  with_timeout_lem :
      (conf : C) (ins : Instance)
      → let r = with_timeout driver conf ins in
        (r.address ≡ ins.address)
        × (r.extra_status_metrics ≡ ins.extra_status_metrics)
        × (r.extra_innodb_metrics ≡ ins.extra_innodb_metrics)
        × (r.dsn
            ≡ driver.format (
                if eq_ℤ (driver.timeout conf) (pos 0)
                then driver.with_timeout (driver_timeout (pos 0) ins.timeout_seconds) conf
                else conf))
  unfolding with_timeout
  with_timeout_lem conf ins = elim (Bool-cases (eq_ℤ (driver.timeout conf) (pos 0))) [
    | inl e ↦ rw (e, with_timeout) (refl, refl, refl, refl)
    | inr e ↦ rw (e, with_timeout) (refl, refl, refl, refl)
  ]

  abbrev valid_of : Bool → Bool → Text → Bool
  valid_of status innodb k =
      one_of always k
      || (status && one_of optional_status_vars k)
      || (innodb && one_of optional_innodb_vars k)

  with_timeout-IsConfigured :
      (config : ConfigMap) (ins : Instance) (seconds : ℤ) (conf : C) (dsn : Text)
      → IsConfigured config seconds conf (
          init_valid_metrics (
            with_timeout driver conf
              (record (with_flags config seconds (with_account config ins)) { dsn = dsn })))
  unfolding init_valid_metrics
  with_timeout-IsConfigured config ins seconds conf dsn =
      let named : Instance = record (with_flags config seconds (with_account config ins)) {
        dsn = dsn;
      } in
      let (address, status, innodb, formatted) = with_timeout_lem conf named in
      (
        address,
        formatted,
        λ k.
            init_valid_metrics_lem (with_timeout driver conf named) k
            ∙ ap (λ b. valid_of b (with_timeout driver conf named).extra_innodb_metrics k) status
            ∙ ap (λ b. valid_of named.extra_status_metrics b k) innodb,
      )

  -- `Init` returns nil exactly if `timeout_seconds` is there and an `int64`, the address is not
  -- empty, and the driver reads the text `user:password@net(address)/?parameters` of the configured
  -- values, where the net is `unix` for an address that ends in `.sock` and else `tcp`; a missing
  -- `timeout_seconds` is an error, though the field has a default. Behind it the driver's timeout is
  -- the one of the name, or the configured one, or 3 seconds for a 0, and `validMetrics` holds a
  -- name exactly if it is in a map that is always added, or in an optional one whose flag is `true`.
  pub init-IsConfigured :
      (config : ConfigMap) (ins : Instance)
      → let Succeeds = λ (seconds : ℤ) (conf : C).
        (parse_int (get config (codes "timeout_seconds")) ≡ some seconds)
        × (length (get config (codes "address")) == 0 ≡ false)
        × (driver.parse (configured_name config) ≡ some conf) in
        (((init driver config ins).0 ≡ ok) ↔ ((seconds : ℤ) × (conf : C) × Succeeds seconds conf))
        × ((seconds : ℤ) (conf : C)
            → Succeeds seconds conf
            → IsConfigured config seconds conf (init driver config ins).1)
  unfolding init raw_dsn
  init-IsConfigured config ins = (
    (
      λ h.
          let (seconds, timed, h1) = timed-ok config (with_account config ins) _ h in
          let (there, conf, parsed) = flagged-ok _ h1 in (seconds, conf, (timed, there, parsed)),
      λ (seconds, conf, (timed, there, parsed)).
          ap (λ r. r.0) (init-some config ins seconds conf timed there parsed),
    ),
    λ seconds conf (timed, there, parsed).
        subst (λ r. IsConfigured config seconds conf r.1)
          (sym (init-some config ins seconds conf timed there parsed))
          (with_timeout-IsConfigured config ins seconds conf
            (raw_dsn (with_flags config seconds (with_account config ins)))),
  )
