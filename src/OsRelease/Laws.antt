-- ===== src/OsRelease/Laws.antt =====
-- Which distributions the parts of the program agree on.
use d2vm.Base.{◌≡◌, true, arith}
use d2vm.Host.{is_ok}
use d2vm.OsRelease.{OsRelease, supported, supports_luks}
use d2vm.Config.{config}

-- A distribution has a kernel configuration exactly if it is on the list of the supported ones.
pub config-supported : (r : OsRelease) → is_ok (config r) ≡ supported r.id
unfolding config supported
config-supported r = ground arith

-- LUKS is offered on supported distributions only.
pub supports_luks-supported : (r : OsRelease) → supports_luks r ≡ true → supported r.id ≡ true
unfolding supports_luks supported
supports_luks-supported r e = ground arith
