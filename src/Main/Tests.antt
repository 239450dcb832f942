-- ===== src/Main/Tests.antt =====
-- src/main.rs at the default options.
use concordium_euro2ccd_serv.Base.{◌≡◌, true, ok, arith}
use concordium_euro2ccd_serv.Main.Options.{App, defaults, check_thresholds, check_thresholds-ok_iff}

-- The defaults, with Coin Gecko as the source.
abbrev pub app : App
app = record defaults { coin_gecko = true }

accepts_defaults : check_thresholds app ≡ ok tt
accepts_defaults =
    (check_thresholds-ok_iff app).1 ((λ h. cc), omega arith, omega arith, omega arith, omega arith)
